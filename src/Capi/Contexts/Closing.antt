-- ===== src/Capi/Contexts/Closing.antt =====
-- capi/config.go: freeing a configuration.
use helm_c_sdk.Base.{
  ℕ, ◌+◌, ◌<◌, ◌≡◌, refl, ap, ◌∙◌, some, List, str_eq, Bool-cases, Option-cases, inl, inr,
}
use helm_c_sdk.Base.Assoc.{lookup}
use helm_c_sdk.Base.Int.{pos}
use helm_c_sdk.Result.{ok}
use helm_c_sdk.Go.{modify}
use helm_c_sdk.Handles.{Call, type_config, get, run, puts_in, u64_mod}
use helm_c_sdk.Handles.Invariant.{Inv}
use helm_c_sdk.Handles.Lifetime.{IsDead}
use helm_c_sdk.Sdk.{Sdk}
use helm_c_sdk.Process.{Object, Process}
use helm_c_sdk.Wrapper.Config.{close, close_config}
use helm_c_sdk.Wrapper.Config.Lifecycle.{pending_file, without_file, close_once}
use helm_c_sdk.Capi.Boundary.{ErrorOut}
use helm_c_sdk.Capi.Registry.Frees.{free_handle_kills, hook_run}
use helm_c_sdk.Capi.Contexts.{helm_config_free}

close-registry :
    (sdk : Sdk) (ref : ℕ) (p : Process sdk.types) → (close sdk ref p).registry ≡ p.registry
unfolding close
close-registry sdk ref p = elim (Option-cases (lookup ref p.configs)) [
  | inl gone ↦ rw (gone, close) refl
  | inr (c, e) ↦ elim (Bool-cases (str_eq c.temp_kubeconfig "")) [
    | inl bare ↦ rw (e, close) (rw bare refl)
    | inr file ↦ rw (e, close) (rw file refl)
  ]
]

-- Freeing a live configuration handle succeeds; what it does to the outside world is to remove the
-- private kubeconfig file that the configuration records, if there is one, and nothing else; the record
-- is cleared, and the handle is dead for every later call on the registry.
pub config_free_closes :
    (sdk : Sdk) (h ref : ℕ) (o : ErrorOut) (p : Process sdk.types)
    (cs : List (Call (Object sdk.types)))
    → get h type_config p.registry ≡ ok (Object.config ref)
    → Inv p.registry
    → p.registry.next_id + puts_in cs < u64_mod
    → let (r, q) = helm_config_free sdk h o p in
      (r.code ≡ pos 0)
      × (q.outside ≡ without_file sdk (pending_file ref p) p.outside)
      × (pending_file ref q ≡ "")
      × IsDead h (run cs q.registry)
unfolding helm_config_free
config_free_closes sdk h ref o p cs held v bound =
    let (code, state, dead) =
      free_handle_kills h type_config p (close sdk ref p) o
        (some (λ obj. modify (close_config sdk obj))) (Object.config ref) cs held
        (unfold hook_run modify close_config in refl) (close-registry sdk ref p) v bound in
    let (removed, cleared, again) = close_once sdk ref p in
    (code, ap (λ q. q.outside) state ∙ removed, ap (pending_file ref) state ∙ cleared, dead)
