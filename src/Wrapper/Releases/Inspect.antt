-- ===== src/Wrapper/Releases/Inspect.antt =====
-- GetRelease, GetReleaseMetadata and GetReleaseValues of pkg/wrapper/release_actions.go.
use helm_c_sdk.Base.{true, Option, none, some, String}
use helm_c_sdk.Errors.{code_release}
use helm_c_sdk.Result.{Result, ok, err, ◌>>=◌ as and_then}
use helm_c_sdk.Go.{Go, lift, ◌>>=◌, attempt}
use helm_c_sdk.Json.{Json, null, object, field, no_fields}
use helm_c_sdk.Options.Release.{GetOptions, GetMetadataOptions, GetValuesOptions}
use helm_c_sdk.Sdk.{Sdk}
use helm_c_sdk.Sdk.Structs.{ReleaseParts}
use helm_c_sdk.Process.{Config, Object, Process}
use helm_c_sdk.Process.Heap.{act_at}
use helm_c_sdk.Wrapper.Failures.{wrap_action_error}
use helm_c_sdk.Wrapper.Summaries.{ReleaseSummary, summarize_release, summary_json, return_pair}
use helm_c_sdk.Wrapper.Releases.{with_config}

-- The map that GetRelease marshals, with its keys in order.
unfoldable pub whole_release : ReleaseSummary → Option ReleaseParts → Json
whole_release s none = object (field "summary" (summary_json s) no_fields)
whole_release s (some v1) = object (
    field "config" v1.config
      (field "hooks" v1.hooks (field "info" v1.info (field "summary" (summary_json s) no_fields))))

-- What GetReleaseMetadata and GetReleaseValues make of the answer of the SDK.
unfoldable pub action_json : Result Json → Result Json
action_json (ok j) = ok j
action_json (err e) = return_pair null (wrap_action_error (some e) code_release)

module _ (sdk : Sdk) where
  open sdk use {types, Release}

  -- What follows g.Run in GetRelease.
  unfoldable pub finish_get : Result Release → Result Json
  finish_get (err e) = return_pair null (wrap_action_error (some e) code_release)
  finish_get (ok rel) =
      and_then (summarize_release sdk rel true) λ s. ok (whole_release s (sdk.release_parts rel))

  unfoldable pub get_from : String → GetOptions → Config → Go (Process types) Json
  get_from name opts cfg = do
    rel ← attempt (act_at cfg.cfg (sdk.get_run opts.revision name))
    lift (finish_get rel)

  -- GetRelease
  unfoldable pub get_release : Option (Object types) → String → GetOptions → Go (Process types) Json
  unfolding get_from
  get_release cfg_obj name opts = with_config sdk cfg_obj (get_from name opts)

  unfoldable pub metadata_from : String → GetMetadataOptions → Config → Go (Process types) Json
  metadata_from name opts cfg = do
    meta ← attempt (act_at cfg.cfg (sdk.metadata_run opts.revision name))
    lift (action_json meta)

  -- GetReleaseMetadata
  unfoldable pub get_release_metadata :
      Option (Object types) → String → GetMetadataOptions → Go (Process types) Json
  unfolding metadata_from
  get_release_metadata cfg_obj name opts = with_config sdk cfg_obj (metadata_from name opts)

  unfoldable pub values_from : String → GetValuesOptions → Config → Go (Process types) Json
  values_from name opts cfg = do
    vals ← attempt (act_at cfg.cfg (sdk.values_run opts.all opts.revision name))
    lift (action_json vals)

  -- GetReleaseValues
  unfoldable pub get_release_values :
      Option (Object types) → String → GetValuesOptions → Go (Process types) Json
  unfolding values_from
  get_release_values cfg_obj name opts = with_config sdk cfg_obj (values_from name opts)
