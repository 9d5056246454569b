-- ===== src/Wrapper/Show/Scratch.antt =====
-- ShowChart of pkg/wrapper/chart.go: the scratch directory of a chart that is not local.
use helm_c_sdk.Base.{ℕ, ◌≡◌, refl, ◌∙◌, inl, inr, Option, some, String}
use mathlib.Core.Path.{subst}
use helm_c_sdk.Errors.{Err, coded, code_io}
use helm_c_sdk.Result.{Result, ok, err}
use helm_c_sdk.Go.{
  Outcome, returns, fails, panics, pure, fail, lift, modify, deferred, attempt, ◌>>=◌,
}
use helm_c_sdk.Go.Laws.{bind-same, bind-returns, bind-fails, Outcome-cases}
use helm_c_sdk.Options.ChartRef.{ChartRefOptions}
use helm_c_sdk.Options.Show.{ShowOptions}
use helm_c_sdk.Sdk.{Sdk}
use helm_c_sdk.Sdk.Structs.{Outside}
use helm_c_sdk.Process.{Object, Process}
use helm_c_sdk.Process.Heap.{alloc_configuration, outer}
use helm_c_sdk.Wrapper.ChartRef.{ResolvedChart, pull_chart_ref}
use helm_c_sdk.Wrapper.Settings.{private_temp_dir, remove_best_effort}
use helm_c_sdk.Wrapper.Clients.{resolve_client}
use helm_c_sdk.Wrapper.Show.{
  fetched, saved, show_at, show_format, show_config, local_or_fetched, local_chart_path, show_chart,
}

-- chartutil.Save returns, or fails.
abbrev pub IsCalm : {A : Type 0} → Outcome A → Type 0
IsCalm (returns a) = Unit {0}
IsCalm (fails e) = Unit {0}
IsCalm (panics m) = ⊥

-- The last thing that happened outside is the removal of the directory.
abbrev pub IsSwept : (sdk : Sdk) → String → Process sdk.types → Type 0
IsSwept sdk dir p = (o : Outside sdk.types) × (p.outside ≡ sdk.remove_all dir o)

module _ (sdk : Sdk) (format : String) (client : Option sdk.Client) (opts : ShowOptions)
    (dir : String) where
  -- The process once chartutil.Save is over.
  abbrev after_save : ResolvedChart sdk.Chart → Process sdk.types → Process sdk.types
  after_save rc p = record p { outside = (sdk.save_chart rc.chart dir p.outside).1 }

  shown-IsSwept :
      (path : String) (q : Process sdk.types)
      → IsSwept sdk dir (show_at sdk format client opts (path, some dir) q).1
  unfolding show_at deferred
  shown-IsSwept path q = (_, refl)

  fetched-returns :
      (rc : ResolvedChart sdk.Chart) (p : Process sdk.types) (path : String)
      → (sdk.save_chart rc.chart dir p.outside).0 ≡ returns path
      → fetched sdk dir (ok rc) p ≡ (returns (path, some dir), after_save rc p)
  unfolding fetched attempt outer
  fetched-returns rc p path e =
      bind-returns _ _ p (after_save rc p) (ok path) (rw e refl) ∙ (unfold saved pure in refl)

  fetched-fails :
      (rc : ResolvedChart sdk.Chart) (p : Process sdk.types) (e : Err)
      → (sdk.save_chart rc.chart dir p.outside).0 ≡ fails e
      → fetched sdk dir (ok rc) p
        ≡ (fails (coded code_io e), remove_best_effort sdk dir (after_save rc p))
  unfolding fetched attempt outer
  fetched-fails rc p x e =
      bind-returns _ _ p (after_save rc p) (err x) (rw e refl)
      ∙ (unfold saved modify fail ◌>>=◌ in refl)

  fetched-IsSwept :
      ((c : sdk.Chart) (d : String) (o : Outside sdk.types) → IsCalm (sdk.save_chart c d o).0)
      → (rc : Result (ResolvedChart sdk.Chart)) (p : Process sdk.types)
      → IsSwept sdk dir ((fetched sdk dir rc >>= show_at sdk format client opts) p).1
  fetched-IsSwept calm (err e) p = unfold fetched modify fail ◌>>=◌ in (p.outside, refl)
  fetched-IsSwept calm (ok rc) p = elim (Outcome-cases (sdk.save_chart rc.chart dir p.outside).0) [
    | inl (path, e) ↦
        rw (bind-returns _ _ p (after_save rc p) (path, some dir) (fetched-returns rc p path e))
          (shown-IsSwept path (after_save rc p))
    | inr (inl (x, e)) ↦
        rw
          (bind-fails _ (show_at sdk format client opts) p
            (remove_best_effort sdk dir (after_save rc p)) (coded code_io x)
            (fetched-fails rc p x e))
          (_, refl)
    | inr (inr (m, e)) ↦ absurd (subst IsCalm e (calm rc.chart dir p.outside))
  ]

path-fetched :
    (sdk : Sdk) (chart_ref dir : String) (opts : ChartRefOptions) (client : Option sdk.Client)
    (missing : Err) (ref : ℕ) (rc : Result (ResolvedChart sdk.Chart))
    (p1 p2 p3 p4 p5 : Process sdk.types)
    → outer (sdk.stat chart_ref) p1 ≡ (fails missing, p2)
    → alloc_configuration
        (record (sdk.new_configuration sdk.default_handler) { registry_client = client })
        p2
      ≡ (returns ref, p3)
    → private_temp_dir sdk "show" p3 ≡ (returns dir, p4)
    → attempt (pull_chart_ref sdk (show_config sdk ref) chart_ref opts) p4 ≡ (returns rc, p5)
    → local_chart_path sdk client chart_ref opts p1 ≡ fetched sdk dir rc p5
unfolding local_chart_path attempt local_or_fetched
path-fetched sdk chart_ref dir opts client missing ref rc p1 p2 p3 p4 p5 absent made scratch
      pulled =
    bind-returns _ _ p1 p2 (err missing) (rw absent refl)
    ∙ (bind-returns _ _ p2 p3 ref made
        ∙ (bind-returns _ _ p3 p4 dir scratch ∙ bind-returns _ _ p4 p5 rc pulled))

-- helm_show of a chart that is not local: once the scratch directory for the archive is made, the last
-- thing that happens to the outside world is its removal, whether the download, the saving or the
-- rendering fails or all succeed, and also when the rendering panics. The download and chartutil.Save
-- do not panic.
pub show_removes_scratch :
    (sdk : Sdk) (obj : Option (Object sdk.types)) (chart_ref format dir : String)
    (opts : ShowOptions) (client : Option sdk.Client) (missing : Err) (ref : ℕ)
    (rc : Result (ResolvedChart sdk.Chart)) (p p1 p2 p3 p4 p5 : Process sdk.types)
    → ((c : sdk.Chart) (d : String) (o : Outside sdk.types) → IsCalm (sdk.save_chart c d o).0)
    → show_format opts.format ≡ ok format
    → resolve_client sdk obj (sdk.is_oci chart_ref) opts.chart_ref_options.plain_http p
      ≡ (returns client, p1)
    → outer (sdk.stat chart_ref) p1 ≡ (fails missing, p2)
    → alloc_configuration
        (record (sdk.new_configuration sdk.default_handler) { registry_client = client })
        p2
      ≡ (returns ref, p3)
    → private_temp_dir sdk "show" p3 ≡ (returns dir, p4)
    → attempt (pull_chart_ref sdk (show_config sdk ref) chart_ref opts.chart_ref_options) p4
      ≡ (returns rc, p5)
    → IsSwept sdk dir (show_chart sdk obj chart_ref opts p).1
unfolding show_chart lift
show_removes_scratch sdk obj chart_ref format dir opts client missing ref rc p p1 p2 p3 p4 p5 calm
      known chosen absent made scratch pulled =
    rw (bind-returns (lift (show_format opts.format)) _ p p format (rw known refl)) (
      rw (bind-returns _ _ p p1 client chosen) (
        rw
          (bind-same _ (fetched sdk dir rc) (show_at sdk format client opts) p1 p5 (
            path-fetched sdk chart_ref dir opts.chart_ref_options client missing ref rc p1 p2 p3 p4
              p5 absent made scratch pulled))
          (fetched-IsSwept sdk format client opts dir calm rc p5)))
