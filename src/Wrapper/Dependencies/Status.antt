-- ===== src/Wrapper/Dependencies/Status.antt =====
-- The status of a declared dependency, in pkg/wrapper/dependency.go.
pub mod Laws
pub mod Frame
use Prim.Native.String.{◌++◌}
use helm_c_sdk.Base.{
  ℕ, Bool, true, false, not, Option, none, some, String, List, [], ◌∷◌, keep, str_eq, if◌then◌else◌,
}
use helm_c_sdk.Base.Text.{codes, trim_prefix, trim_suffix, base_name}
use helm_c_sdk.Errors.{Err}
use helm_c_sdk.Result.{Result, ok, err}
use helm_c_sdk.Go.{Go, pure, ◌>>=◌, attempt}
use helm_c_sdk.Json.{Json, text, array, object, field, no_fields, Items, no_items, item}
use helm_c_sdk.Sdk.{Sdk}
use helm_c_sdk.Sdk.Structs.{Dependency}
use helm_c_sdk.Process.{Process}
use helm_c_sdk.Process.Heap.{outer}
use helm_c_sdk.Wrapper.Settings.{path_join}
use helm_c_sdk.Wrapper.Charts.{load_chart}

-- dependencyEntry
pub record DependencyEntry : Type 0 where
  pub name : String
  pub version : String
  pub repository : String
  pub status : String

module _ (sdk : Sdk) where
  open sdk use {types, Chart}

  constraint_status : Result sdk.Constraint → Result sdk.Version → String
  constraint_status (err e) v = "invalid version"
  constraint_status (ok c) (err e) = "invalid version"
  constraint_status (ok c) (ok v) = if not (sdk.satisfies c v) then "wrong version" else ""

  -- versionStatus
  unfoldable pub version_status : String → String → String
  unfolding constraint_status
  version_status have want =
      if str_eq have want
      then ""
      else constraint_status (sdk.new_constraint want) (sdk.new_version have)

  -- versionedArchives
  unfoldable pub versioned_archives : List String → String → List String
  versioned_archives archives name =
      keep
        (λ arc.
          sdk.strict_version (
            trim_prefix (trim_suffix (base_name (codes arc)) (codes ".tgz")) (codes (name ++ "-"))))
        archives

  loaded_status : Result Chart → Dependency → String
  unfolding version_status
  loaded_status (err e) dep = "corrupt"
  loaded_status (ok c) dep =
      if not (str_eq (sdk.chart_name c) dep.name)
      then "misnamed"
      else if not (str_eq (version_status (sdk.chart_version c) dep.version) "")
      then version_status (sdk.chart_version c) dep.version
      else "ok"

  unfoldable pub stat_status : Result Bool → String → Dependency → Go (Process types) String
  unfolding loaded_status
  stat_status (err e) archive dep = pure ""
  stat_status (ok dir) archive dep = do
    loaded ← attempt (load_chart sdk archive)
    pure (loaded_status loaded dep)

  -- archiveStatus
  unfoldable pub archive_status : String → Dependency → Go (Process types) String
  unfolding stat_status
  archive_status archive dep = do
    found ← attempt (outer (sdk.stat archive))
    stat_status found archive dep

  -- The rest of packagedStatus, once at most one kind of archive is left.
  unfoldable pub few_status : List String → Dependency → Go (Process types) String
  few_status [] dep = pure ""
  few_status (a ∷ []) dep = archive_status a dep
  few_status (a ∷ b ∷ rest) dep = pure "too many matches"

  unfoldable pub several_status : List String → Dependency → Go (Process types) String
  unfolding few_status
  several_status (a ∷ b ∷ rest) dep = few_status (versioned_archives (a ∷ b ∷ rest) dep.name) dep
  several_status archives dep = few_status archives dep

  unfoldable pub glob_status : Result (List String) → Dependency → Go (Process types) String
  unfolding several_status
  glob_status (err e) dep = pure "bad pattern"
  glob_status (ok archives) dep = several_status archives dep

  -- packagedStatus
  unfoldable pub packaged_status : String → Dependency → Go (Process types) String
  unfolding glob_status
  packaged_status chart_dir dep = do
    found ←
        attempt (outer (sdk.glob (path_join (path_join chart_dir "charts") (dep.name ++ "-*.tgz"))))
    glob_status found dep

  -- The last subchart of the name, if any.
  last_named : String → List Chart → Option Chart → Option Chart
  last_named name [] sub = sub
  last_named name (c ∷ cs) sub =
      last_named name cs (if str_eq (sdk.chart_name c) name then some c else sub)

  -- unpackedStatus
  unfoldable pub unpacked_status : Dependency → Chart → String
  unfolding version_status last_named
  unpacked_status dep parent = elim (last_named dep.name (sdk.subcharts parent) none) [
    | none ↦ "missing"
    | some sub ↦
        if not (str_eq (version_status (sdk.chart_version sub) dep.version) "")
        then version_status (sdk.chart_version sub) dep.version
        else "unpacked"
  ]

  -- dependencyStatus
  unfoldable pub dependency_status : String → Dependency → Chart → Go (Process types) String
  dependency_status chart_dir dep parent = do
    s ← packaged_status chart_dir dep
    pure (if not (str_eq s "") then s else unpacked_status dep parent)

  -- The loop of DependencyList.
  unfoldable pub dependency_entries :
      String → Chart → List Dependency → Go (Process types) (List DependencyEntry)
  dependency_entries chart_dir parent [] = pure []
  dependency_entries chart_dir parent (d ∷ ds) = do
    s ← dependency_status chart_dir d parent
    rest ← dependency_entries chart_dir parent ds
    pure (
        record { name = d.name; version = d.version; repository = d.repository; status = s } ∷ rest)

  entries_json : List DependencyEntry → Items
  entries_json [] = no_items
  entries_json (e ∷ es) =
      item
        (object (
          field "name" (text e.name) (
            field "version" (text e.version)
              (field "repository" (text e.repository) (field "status" (text e.status) no_fields)))))
        (entries_json es)

  -- DependencyList
  unfoldable pub dependency_list : String → Go (Process types) Json
  unfolding entries_json
  dependency_list chart_dir = do
    c ← load_chart sdk chart_dir
    es ← dependency_entries chart_dir c (sdk.metadata_dependencies c)
    pure (array (entries_json es))
