-- ===== src/Wrapper/Testing/Cleanup.antt =====
-- TestRelease of pkg/wrapper/testing_action.go: the pods of the tests, and which failure is reported.
use helm_c_sdk.Base.{◌≡◌, refl, ◌∙◌, ap, arith, Option, some, String}
use helm_c_sdk.Errors.{Code, Err, coded, with_code, from_error, code_release}
use helm_c_sdk.Result.{Result, ok, err, error_of}
use helm_c_sdk.Go.{
  Outcome, returns, fails, panics, Go, pure, lift, attempt, attempt_of, continue, ◌>>=◌,
}
use helm_c_sdk.Go.Laws.{bind-returns}
use helm_c_sdk.Options.Testing.{TestOptions}
use helm_c_sdk.Sdk.{Sdk}
use helm_c_sdk.Sdk.Structs.{Outside}
use helm_c_sdk.Sdk.Actions.{TestRun}
use helm_c_sdk.Process.{Config, Process}
use helm_c_sdk.Process.Heap.{act_at, outer}
use helm_c_sdk.Wrapper.Failures.{wrap_action_error}
use helm_c_sdk.Wrapper.Testing.{
  new_release_testing, first_error, collect_test_logs, shut_down, finish_test, test,
}

lift_state : {S B : Type 0} (r : Result B) (s : S) → (lift r s).1 ≡ s
unfolding lift
lift_state (ok b) s = refl
lift_state (err e) s = refl

attempt_state : {S A : Type 0} (r : Outcome A) (s : S) → (attempt_of r s).1 ≡ s
attempt_state (returns a) s = refl
attempt_state (fails e) s = refl
attempt_state (panics m) s = refl

module _ {S A B : Type 0} where
  continue-lift :
      (r : Outcome A) (g : A → Result B) (s : S) → (continue r (λ a. lift (g a)) s).1 ≡ s
  continue-lift (returns a) g s = lift_state (g a) s
  continue-lift (fails e) g s = refl
  continue-lift (panics m) g s = refl

  continue-pure : (r : Outcome A) (g : A → B) (s : S) → (continue r (λ a. pure (g a)) s).1 ≡ s
  unfolding pure
  continue-pure (returns a) g s = refl
  continue-pure (fails e) g s = refl
  continue-pure (panics m) g s = refl

  bind-lift_state :
      (m : Go S A) (g : A → Result B) (s : S) → ((m >>= (λ a. lift (g a))) s).1 ≡ (m s).1
  unfolding ◌>>=◌
  bind-lift_state m g s = continue-lift (m s).0 g (m s).1

  bind-pure_state : (m : Go S A) (g : A → B) (s : S) → ((m >>= (λ a. pure (g a))) s).1 ≡ (m s).1
  unfolding ◌>>=◌
  bind-pure_state m g s = continue-pure (m s).0 g (m s).1

shut_down_state :
    (sdk : Sdk) (f : Go (Outside sdk.types) (Unit {0})) (p : Process sdk.types)
    → (shut_down sdk (some f) p).1 ≡ record p { outside = (f p.outside).1 }
unfolding shut_down attempt outer
shut_down_state sdk f p =
    bind-pure_state (attempt (outer f)) error_of p
    ∙ attempt_state (f p.outside).0 (record p { outside = (f p.outside).1 })

-- TestRelease deletes the pods of the tests: when the SDK ran the tests and returned a function that
-- does so, that function is called after the logs, whether the tests, the logs or both failed, and the
-- rest of the process is as the logs left it. The collection of the logs did not panic.
pub test_shuts_down :
    (sdk : Sdk) (name : String) (opts : TestOptions) (cfg : Config) (t : TestRun sdk.types)
    (logs : String × Option Err) (f : Go (Outside sdk.types) (Unit {0}))
    (p p1 p2 : Process sdk.types)
    → act_at cfg.cfg (sdk.test_run (new_release_testing sdk cfg opts) name) p ≡ (returns t, p1)
    → collect_test_logs sdk cfg (new_release_testing sdk cfg opts) t.release opts.logs p1
      ≡ (returns logs, p2)
    → t.shutdown ≡ some f
    → (test sdk name opts cfg p).1 ≡ record p2 { outside = (f p2.outside).1 }
unfolding test
test_shuts_down sdk name opts cfg t logs f p p1 p2 ran collected given =
    ap (λ x. x.1) (bind-returns _ _ p p1 t ran ∙ bind-returns _ _ p1 p2 logs collected)
    ∙ (bind-lift_state _ _ p2 ∙ rw given (shut_down_state sdk f p2))

-- An error stays an error.
wrapped_some : (x : Err) (c : Code) → (y : Err) × (wrap_action_error (some x) c ≡ some y)
unfolding wrap_action_error with_code from_error
wrapped_some x c = (coded (from_error (wrap_action_error (some x) c)) x, ground arith)

finish_failed :
    (sdk : Sdk) (rel : Option sdk.Release) (text : String) (x y : Err)
    → wrap_action_error (some x) code_release ≡ some y
    → finish_test sdk rel text (some x) ≡ err y
unfolding finish_test
finish_failed sdk rel text x y e = rw e refl

-- When the tests failed and their pods could be deleted, or the deletion failed, that failure of the
-- tests is the one that TestRelease reports: the error of the logs and the error of the deletion are
-- dropped. The collection of the logs and the deletion did not panic.
pub test_failure_first :
    (sdk : Sdk) (name : String) (opts : TestOptions) (cfg : Config) (t : TestRun sdk.types)
    (logs : String × Option Err) (stopped : Option Err) (x : Err) (p p1 p2 p3 : Process sdk.types)
    → act_at cfg.cfg (sdk.test_run (new_release_testing sdk cfg opts) name) p ≡ (returns t, p1)
    → collect_test_logs sdk cfg (new_release_testing sdk cfg opts) t.release opts.logs p1
      ≡ (returns logs, p2)
    → shut_down sdk t.shutdown p2 ≡ (returns stopped, p3)
    → t.failure ≡ some x
    → (y : Err) × (wrap_action_error (some x) code_release ≡ some y)
      × (test sdk name opts cfg p ≡ (fails y, p3))
unfolding test
test_failure_first sdk name opts cfg t logs stopped x p p1 p2 p3 ran collected ended failed =
    let (y, wraps) = wrapped_some x code_release in
    let report : finish_test sdk t.release logs.0
          (first_error (first_error t.failure logs.1) stopped)
        ≡ err y =
      rw failed (unfold first_error in finish_failed sdk t.release logs.0 x y wraps) in
    (
      y,
      wraps,
      bind-returns _ _ p p1 t ran
          ∙ (bind-returns _ _ p1 p2 logs collected
              ∙ (bind-returns _ _ p2 p3 stopped ended ∙ (unfold lift in rw report refl))),
    )
