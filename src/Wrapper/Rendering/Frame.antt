-- ===== src/Wrapper/Rendering/Frame.antt =====
-- pkg/wrapper/actions.go: the configurations while a post-renderer is built.
use helm_c_sdk.Base.{none, String, List}
use helm_c_sdk.Sdk.{Sdk}
use helm_c_sdk.Process.Respects.{Frame, Respects, returned, outside_or, bound, branched}
use helm_c_sdk.Wrapper.Rendering.{some_renderer, post_renderer_for}

module _ (sdk : Sdk) (F : Frame sdk.types) where
  some_renderer-Respects :
      (name : String) (args : List String) → Respects F (some_renderer sdk name args)
  unfolding some_renderer
  some_renderer-Respects name args = search (bound, outside_or, returned)

  pub post_renderer_for-Respects :
      (name : String) (args : List String) → Respects F (post_renderer_for sdk name args)
  unfolding post_renderer_for
  post_renderer_for-Respects name args =
      branched F _ _ _ (returned F none) (some_renderer-Respects name args)
