-- ===== src/Wrapper/Repos/Frame.antt =====
-- pkg/wrapper/repo.go, verify.go and values.go: what these operations respect.
use helm_c_sdk.Base.{Bool, Option, String}
use helm_c_sdk.Json.{Document}
use helm_c_sdk.Options.Repo.{RepoIndexOptions, RepoIndexGenerateOptions}
use helm_c_sdk.Sdk.{Sdk}
use helm_c_sdk.Process.{Object}
use helm_c_sdk.Process.Respects.{
  Frame, Respects, returned, lifted, looked, outside_or, finished, bound, branched,
}
use helm_c_sdk.Wrapper.Settings.Frame.{temp-Respects}
use helm_c_sdk.Wrapper.Repos.{
  download, download_repo_index, merged_with, also_json, generate_repo_index, verify_chart,
  merge_chart_values, validate_values_schema,
}

module _ (sdk : Sdk) (F : Frame sdk.types) where
  open sdk use {types, Index, Repository}

  download-Respects : (r : Repository) (dir : String) → Respects F (download sdk r dir)
  unfolding download
  download-Respects r dir =
      bound F _ _ (outside_or F _ _) λ path. bound F _ _ (outside_or F _ _) λ idx. lifted F _

  pub download_repo_index-Respects :
      (url : String) (opts : RepoIndexOptions) → Respects F (download_repo_index sdk url opts)
  unfolding download_repo_index
  download_repo_index-Respects url opts = bound F _ _ (looked F _) λ settings.
      bound F _ _ (lifted F _) λ r.
        bound F _ _ (temp-Respects sdk F "repo")
          λ dir. finished F _ (sdk.remove_all dir) (download-Respects r dir)

  merged-Respects : (path : String) (idx : Index) → Respects F (merged_with sdk path idx)
  unfolding merged_with
  merged-Respects path idx =
      branched F _ _ _ (returned F _) (bound F _ _ (outside_or F _ _) λ existing. returned F _)

  also-Respects :
      (wanted : Bool) (dir : String) (idx : Index) → Respects F (also_json sdk wanted dir idx)
  unfolding also_json
  also-Respects wanted dir idx = branched F _ _ _ (outside_or F _ _) (returned F _)

  pub generate_repo_index-Respects :
      (dir : String) (opts : RepoIndexGenerateOptions)
      → Respects F (generate_repo_index sdk dir opts)
  unfolding generate_repo_index
  generate_repo_index-Respects dir opts = bound F _ _ (outside_or F _ _) λ found.
      bound F _ _ (merged-Respects opts.merge found) λ merged.
        bound F _ _ (outside_or F _ _)
          λ written. bound F _ _ (also-Respects opts.json dir _) λ also. lifted F _

  pub verify_chart-Respects :
      (path prov_file keyring : String) → Respects F (verify_chart sdk path prov_file keyring)
  unfolding verify_chart
  verify_chart-Respects path prov_file keyring = bound F _ _ (outside_or F _ _) λ v. returned F _

  pub merge_values-Respects :
      (obj : Option (Object types)) (values : Document)
      → Respects F (merge_chart_values sdk obj values)
  unfolding merge_chart_values
  merge_values-Respects obj values =
      bound F _ _ (lifted F _)
        λ c. bound F _ _ (lifted F _) λ vals. bound F _ _ (outside_or F _ _) λ merged. lifted F _

  pub validate_schema-Respects :
      (obj : Option (Object types)) (values : Document)
      → Respects F (validate_values_schema sdk obj values)
  unfolding validate_values_schema
  validate_schema-Respects obj values = bound F _ _ (lifted F _) λ c.
      bound F _ _ (lifted F _) λ vals. bound F _ _ (outside_or F _ _) λ merged. outside_or F _ _
