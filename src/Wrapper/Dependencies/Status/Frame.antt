-- ===== src/Wrapper/Dependencies/Status/Frame.antt =====
-- pkg/wrapper/dependency.go: what listing the dependencies of a chart respects.
use helm_c_sdk.Base.{Bool, String, List, [], ◌∷◌}
use helm_c_sdk.Result.{Result, ok, err}
use helm_c_sdk.Sdk.{Sdk}
use helm_c_sdk.Sdk.Structs.{Dependency}
use helm_c_sdk.Process.Respects.{Frame, Respects, returned, outside, tried, bound}
use helm_c_sdk.Wrapper.Charts.Frame.{load_chart-Respects}
use helm_c_sdk.Wrapper.Dependencies.Status.{
  versioned_archives, stat_status, archive_status, few_status, several_status, glob_status,
  packaged_status, dependency_status, dependency_entries, dependency_list,
}

module _ (sdk : Sdk) (F : Frame sdk.types) where
  open sdk use {Chart}

  stat-Respects :
      (r : Result Bool) (archive : String) (dep : Dependency)
      → Respects F (stat_status sdk r archive dep)
  unfolding stat_status
  stat-Respects (err e) archive dep = returned F _
  stat-Respects (ok dir) archive dep =
      bound F _ _ (tried F _ (load_chart-Respects sdk F archive)) λ loaded. returned F _

  archive-Respects :
      (archive : String) (dep : Dependency) → Respects F (archive_status sdk archive dep)
  unfolding archive_status
  archive-Respects archive dep =
      bound F _ _ (tried F _ (outside F _)) λ found. stat-Respects found archive dep

  few-Respects : (found : List String) (dep : Dependency) → Respects F (few_status sdk found dep)
  unfolding few_status
  few-Respects [] dep = returned F _
  few-Respects (a ∷ []) dep = archive-Respects a dep
  few-Respects (a ∷ b ∷ rest) dep = returned F _

  several-Respects :
      (found : List String) (dep : Dependency) → Respects F (several_status sdk found dep)
  unfolding several_status
  several-Respects [] dep = few-Respects [] dep
  several-Respects (a ∷ []) dep = few-Respects (a ∷ []) dep
  several-Respects (a ∷ b ∷ rest) dep =
      few-Respects (versioned_archives sdk (a ∷ b ∷ rest) dep.name) dep

  glob-Respects : (r : Result (List String)) (dep : Dependency) → Respects F (glob_status sdk r dep)
  unfolding glob_status
  glob-Respects (err e) dep = returned F _
  glob-Respects (ok found) dep = several-Respects found dep

  status-Respects :
      (dir : String) (dep : Dependency) (parent : Chart)
      → Respects F (dependency_status sdk dir dep parent)
  unfolding dependency_status packaged_status
  status-Respects dir dep parent =
      bound F _ _ (bound F _ _ (tried F _ (outside F _)) λ found. glob-Respects found dep)
        λ s. returned F _

  entries-Respects :
      (dir : String) (parent : Chart) (ds : List Dependency)
      → Respects F (dependency_entries sdk dir parent ds)
  unfolding dependency_entries
  entries-Respects dir parent [] = returned F _
  entries-Respects dir parent (d ∷ ds) =
      bound F _ _ (status-Respects dir d parent)
        λ s. bound F _ _ (entries-Respects dir parent ds) λ rest. returned F _

  pub dependency_list-Respects : (dir : String) → Respects F (dependency_list sdk dir)
  unfolding dependency_list
  dependency_list-Respects dir =
      bound F _ _ (load_chart-Respects sdk F dir)
        λ c. bound F _ _ (entries-Respects dir c _) λ es. returned F _
