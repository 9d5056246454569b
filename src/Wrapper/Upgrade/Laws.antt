-- ===== src/Wrapper/Upgrade/Laws.antt =====
-- pkg/wrapper/upgrade.go: the namespace and the configuration of an upgrade, and a cancelled
-- context.
use helm_c_sdk.Base.{
  ℕ, Bool, true, Option, some, String, refl, ◌≡◌, not, ◌&&◌, str_eq, arith, Bool-cases, inl, inr,
}
use helm_c_sdk.Errors.{Err, code_cancelled, code_invalid_arg, from_error, new_error}
use helm_c_sdk.Go.{returns, fails, Go, fail}
use helm_c_sdk.Sdk.{Sdk, KeepConfiguration}
use helm_c_sdk.Process.{Config, Object, Process}
use mathlib.Core.Path.{subst}
use helm_c_sdk.Base.{eq_iff, ◌⊎◌}
use helm_c_sdk.Json.{Document}
use helm_c_sdk.Go.Laws.{bind-fails}
use helm_c_sdk.Go.Ensures.{Ensures, Ensures-then, Ensures-pure, Ensures-fail, Holds}
use helm_c_sdk.Options.Upgrade.{UpgradeOptions}
use helm_c_sdk.Sdk.Actions.{UpgradeAction}
use helm_c_sdk.Wrapper.Prologue.{is_cancelled}
use helm_c_sdk.Wrapper.Prologue.Laws.{action_prologue-cancelled, cancelled_error}
use helm_c_sdk.Wrapper.Upgrade.{
  apply_upgrade_options, build_upgrade, new_upgrade, upgrade_release, other_namespace,
}

module _ (sdk : Sdk) (cfg : Config) where
  open sdk use {types}

  abbrev Bound : UpgradeAction types → Type 0
  Bound up = (up.cfg ≡ cfg.cfg) × (up.namespace ≡ cfg.namespace)

  apply_upgrade_options-Bound :
      (up : UpgradeAction types) (opts : UpgradeOptions)
      → Bound up
      → Ensures Bound (apply_upgrade_options sdk up opts)
  unfolding apply_upgrade_options
  apply_upgrade_options-Bound up opts b =
      Ensures-then Bound _ _ λ pr. Ensures-then Bound _ _ λ strategy. Ensures-pure Bound _ b

  build_upgrade-Bound :
      (opts : UpgradeOptions) → KeepConfiguration sdk → Ensures Bound (build_upgrade sdk cfg opts)
  unfolding build_upgrade
  build_upgrade-Bound opts keep = Ensures-then Bound _ _ λ valid.
      Ensures-then Bound _ _
        λ dry_run. apply_upgrade_options-Bound _ opts (keep.upgrade cfg.cfg, refl)

  -- The test of the guard.
  abbrev moved_to : String → Bool
  moved_to namespace = not (str_eq namespace "") && not (str_eq namespace cfg.namespace)

  refused :
      (opts : UpgradeOptions) (p : Process types)
      → moved_to opts.namespace ≡ true
      → (e : Err) × (new_upgrade sdk cfg opts p ≡ (fails e, p))
        × (from_error (some e) ≡ code_invalid_arg)
  unfolding new_upgrade fail from_error new_error
  refused opts p e = (other_namespace cfg.namespace opts.namespace, rw (e, new_upgrade) refl, refl)

  pub new_upgrade-Bound :
      (opts : UpgradeOptions) → KeepConfiguration sdk → Ensures Bound (new_upgrade sdk cfg opts)
  unfolding new_upgrade
  new_upgrade-Bound opts keep =
      elim (Bool-cases
        (not (str_eq opts.namespace "") && not (str_eq opts.namespace cfg.namespace))) [
          | inl moved ↦ rw moved (Ensures-fail Bound _)
          | inr stays ↦ rw stays (build_upgrade-Bound opts keep)
        ]

-- The value of a computation has what the computation ensures.
ensured :
    {S A : Type 0} (Q : A → Type 0) (m : Go S A) (s : S) (a : A)
    → Ensures Q m
    → (m s).0 ≡ returns a
    → Q a
ensured Q m s a k e = subst (Holds Q) e (k.at s)

-- An upgrade action that is built works on the configuration of the handle, in its namespace, and the
-- caller has named no other one. NewUpgrade keeps the configuration that it gets.
pub upgrade_stays :
    (sdk : Sdk) (keep : KeepConfiguration sdk) (cfg : Config) (opts : UpgradeOptions)
    (p : Process sdk.types) (up : UpgradeAction sdk.types)
    → (new_upgrade sdk cfg opts p).0 ≡ returns up
    → (up.cfg ≡ cfg.cfg)
      × (up.namespace ≡ cfg.namespace)
      × ((opts.namespace ≡ "") ⊎ (opts.namespace ≡ cfg.namespace))
upgrade_stays sdk keep cfg opts p up e =
    let (same, named) =
      ensured (Bound sdk cfg) (new_upgrade sdk cfg opts) p up (new_upgrade-Bound sdk cfg opts keep)
        e in
    (same, named, unmoved)
  where
    unmoved : (opts.namespace ≡ "") ⊎ (opts.namespace ≡ cfg.namespace)
    unmoved = elim (Bool-cases (moved_to sdk cfg opts.namespace)) [
      | inl moved ↦
          let (x, fails_so, code) = refused sdk cfg opts p moved in ground (arith, e, fails_so)
      | inr stays ↦ ground (arith, eq_iff opts.namespace "", eq_iff opts.namespace cfg.namespace)
    ]

-- An upgrade whose context is cancelled when it is called ends at once with the cancelled code and
-- changes nothing.
pub cancelled_upgrade_refused :
    (sdk : Sdk) (ctx : Option ℕ) (cfg_obj chart_obj : Option (Object sdk.types))
    (chart_ref name : String) (values : Document) (opts : UpgradeOptions) (p : Process sdk.types)
    → is_cancelled sdk ctx p ≡ true
    → (upgrade_release sdk ctx cfg_obj chart_obj chart_ref name values opts p
        ≡ (fails cancelled_error, p))
      × (from_error (some cancelled_error) ≡ code_cancelled)
unfolding upgrade_release from_error
cancelled_upgrade_refused sdk ctx cfg_obj chart_obj chart_ref name values opts p e = (
  bind-fails _ _ p p cancelled_error (action_prologue-cancelled sdk ctx cfg_obj values p e),
  refl,
)
