-- ===== src/Wrapper/Rendering.antt =====
-- pkg/wrapper/actions.go: the rendering options that install and upgrade share.
pub mod Frame
use helm_c_sdk.Base.{Bool, Option, none, some, String, List, str_eq, if◌then◌else◌}
use helm_c_sdk.Errors.{code_invalid_arg}
use helm_c_sdk.Result.{Result, ok, err, or_code}
use helm_c_sdk.Go.{Go, pure, ◌>>=◌, with_error_code}
use helm_c_sdk.Sdk.{Sdk}
use helm_c_sdk.Process.{Process}
use helm_c_sdk.Process.Heap.{outer}

module _ (sdk : Sdk) where
  open sdk use {types, KubeVersion, PostRenderer}

  some_renderer : String → List String → Go (Process types) (Option PostRenderer)
  some_renderer name args = do
    pr ← with_error_code code_invalid_arg (outer (sdk.new_post_renderer name args))
    pure (some pr)

  -- postRendererFor
  unfoldable pub post_renderer_for : String → List String → Go (Process types) (Option PostRenderer)
  unfolding some_renderer
  post_renderer_for name args = if str_eq name "" then pure none else some_renderer name args

  some_kube_version : Result KubeVersion → Result (Option KubeVersion)
  some_kube_version (ok kv) = ok (some kv)
  some_kube_version (err e) = or_code code_invalid_arg (err e)

  -- parseKubeVersion
  unfoldable pub parse_kube_version : String → Result (Option KubeVersion)
  unfolding some_kube_version
  parse_kube_version s =
      if str_eq s "" then ok none else some_kube_version (sdk.parse_kube_version s)
