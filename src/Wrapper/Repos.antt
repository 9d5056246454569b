-- ===== src/Wrapper/Repos.antt =====
-- pkg/wrapper/repo.go, verify.go and values.go: repository indexes, provenance, and effective values.
pub mod Frame
use Prim.Native.String.{◌++◌}
use helm_c_sdk.Base.{Bool, Option, none, some, String, List, [], ◌∷◌, str_eq, if◌then◌else◌}
use helm_c_sdk.Errors.{code_chart_invalid, code_io, code_repo, code_values}
use helm_c_sdk.Result.{Result, ok, err, or_code}
use helm_c_sdk.Go.{Go, pure, lift, gets, deferred, ◌>>=◌, ◌>>◌, with_error_code}
use helm_c_sdk.Json.{Json, Document, text, array, object, field, no_fields, Items, no_items, item}
use helm_c_sdk.Options.Repo.{RepoIndexOptions, RepoIndexGenerateOptions}
use helm_c_sdk.Sdk.{Sdk}
use helm_c_sdk.Sdk.Structs.{Verification}
use helm_c_sdk.Sdk.Actions.{RepoEntry}
use helm_c_sdk.Process.{Object, Process}
use helm_c_sdk.Process.Heap.{outer}
use helm_c_sdk.Wrapper.Charts.{as_chart, unmarshal_values}
use helm_c_sdk.Wrapper.ChartData.{marshal_json}
use helm_c_sdk.Wrapper.Settings.{new_settings, path_join, private_temp_dir, remove_best_effort}

-- &repo.Entry{...} of DownloadRepoIndex
unfoldable pub index_entry : String → RepoIndexOptions → RepoEntry
index_entry url opts = record {
  name = "helm-c-index";
  url = url;
  username = opts.username;
  password = opts.password;
  cert_file = opts.cert_file;
  key_file = opts.key_file;
  ca_file = opts.ca_file;
  insecure_skip_tls_verify = opts.insecure_skip_tls_verify;
  pass_credentials_all = opts.pass_credentials_all;
}

signer_items : List String → Items
signer_items [] = no_items
signer_items (s ∷ ss) = item (text s) (signer_items ss)

-- The JSON of VerifyChart, with the keys in the order that encoding/json gives a map.
unfoldable pub verification_json : Verification → Json
unfolding signer_items
verification_json v = object (
    field "file_hash" (text v.file_hash) (
      field "file_name" (text v.file_name)
        (field "signed_by" (array (signer_items v.signers)) no_fields)))

module _ (sdk : Sdk) where
  open sdk use {types, Index, Repository, Values}

  -- DownloadRepoIndex, once the cache directory is there
  download : Repository → String → Go (Process types) Json
  download r cache_dir = do
    idx_path ← with_error_code code_repo (outer (sdk.download_index r cache_dir))
    idx ← with_error_code code_repo (outer (sdk.load_index idx_path))
    lift (marshal_json (sdk.index_json idx))

  -- DownloadRepoIndex
  unfoldable pub download_repo_index : String → RepoIndexOptions → Go (Process types) Json
  unfolding download
  download_repo_index url opts = do
    settings ← gets (λ p. new_settings sdk p.outside)
    r ← lift (or_code code_repo (sdk.new_chart_repository (index_entry url opts) settings))
    cache_dir ← private_temp_dir sdk "repo"
    deferred (download r cache_dir) (remove_best_effort sdk cache_dir)

  merged_with : String → Index → Go (Process types) Index
  merged_with path idx = if str_eq path "" then pure idx else (do
    existing ← with_error_code code_repo (outer (sdk.load_index path))
    pure (sdk.merge_index idx existing))

  also_json : Bool → String → Index → Go (Process types) (Unit {0})
  also_json wanted dir idx =
      if wanted
      then with_error_code code_io (outer (sdk.write_index_json idx (path_join dir "index.json")))
      else pure tt

  -- GenerateRepoIndex
  unfoldable pub generate_repo_index : String → RepoIndexGenerateOptions → Go (Process types) Json
  unfolding merged_with also_json
  generate_repo_index dir opts = do
    found ← with_error_code code_repo (outer (sdk.index_directory dir opts.base_url))
    merged ← merged_with opts.merge found
    with_error_code code_io
        (outer (sdk.write_index (sdk.sort_entries merged) (path_join dir "index.yaml")))
    also_json opts.json dir (sdk.sort_entries merged)
    lift (marshal_json (sdk.index_json (sdk.sort_entries merged)))

  -- VerifyChart
  unfoldable pub verify_chart : String → String → String → Go (Process types) Json
  verify_chart path prov_file keyring = do
    v ← with_error_code code_chart_invalid (
        outer (
          sdk.verify_chart path (if str_eq prov_file "" then path ++ ".prov" else prov_file)
            keyring))
    pure (verification_json v)

  -- MergeChartValues
  unfoldable pub merge_chart_values : Option (Object types) → Document → Go (Process types) Json
  merge_chart_values obj values = do
    c ← lift (as_chart sdk obj)
    vals ← lift (unmarshal_values values)
    merged ← with_error_code code_values (outer (sdk.coalesce_values c vals))
    lift (marshal_json (sdk.values_json merged))

  -- ValidateValuesSchema
  unfoldable pub validate_values_schema :
      Option (Object types) → Document → Go (Process types) (Unit {0})
  validate_values_schema obj values = do
    c ← lift (as_chart sdk obj)
    vals ← lift (unmarshal_values values)
    merged ← with_error_code code_values (outer (sdk.coalesce_values c vals))
    with_error_code code_values (outer (sdk.validate_against_schema c merged))
