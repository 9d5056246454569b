-- ===== src/Capi/Actions/Inspect.antt =====
-- capi: the release actions that read a stored release, and its tests.
use helm_c_sdk.Base.{Option, String}
use helm_c_sdk.Go.{Go, lift, ◌>>=◌}
use helm_c_sdk.Json.{Json, Document}
use helm_c_sdk.Options.Release.{
  parse_get_options, parse_get_metadata_options, parse_get_values_options,
}
use helm_c_sdk.Options.Testing.{parse_test_options}
use helm_c_sdk.Sdk.{Sdk}
use helm_c_sdk.Process.{Object, Process}
use helm_c_sdk.Wrapper.Releases.Inspect.{get_release, get_release_metadata, get_release_values}
use helm_c_sdk.Wrapper.Testing.{test_release}
use helm_c_sdk.Capi.Boundary.{Reply}
use helm_c_sdk.Capi.Actions.{JsonOut, ReleaseShimArgs, release_action}

module _ (sdk : Sdk) where
  open sdk use {types}

  get_body : Option (Object types) → String → Document → Go (Process types) Json
  get_body cfg_obj name json = do
    opts ← lift (parse_get_options json)
    get_release sdk cfg_obj name opts

  -- helm_get
  unfoldable pub helm_get : ReleaseShimArgs → Process types → Reply JsonOut × Process types
  unfolding get_body
  helm_get a = release_action sdk a get_body

  metadata_body : Option (Object types) → String → Document → Go (Process types) Json
  metadata_body cfg_obj name json = do
    opts ← lift (parse_get_metadata_options json)
    get_release_metadata sdk cfg_obj name opts

  -- helm_get_metadata
  unfoldable pub helm_get_metadata : ReleaseShimArgs → Process types → Reply JsonOut × Process types
  unfolding metadata_body
  helm_get_metadata a = release_action sdk a metadata_body

  values_body : Option (Object types) → String → Document → Go (Process types) Json
  values_body cfg_obj name json = do
    opts ← lift (parse_get_values_options json)
    get_release_values sdk cfg_obj name opts

  -- helm_get_values
  unfoldable pub helm_get_values : ReleaseShimArgs → Process types → Reply JsonOut × Process types
  unfolding values_body
  helm_get_values a = release_action sdk a values_body

  test_body : Option (Object types) → String → Document → Go (Process types) Json
  test_body cfg_obj name json = do
    opts ← lift (parse_test_options json)
    test_release sdk cfg_obj name opts

  -- helm_test_run
  unfoldable pub helm_test_run : ReleaseShimArgs → Process types → Reply JsonOut × Process types
  unfolding test_body
  helm_test_run a = release_action sdk a test_body
