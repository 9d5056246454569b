-- ===== src/Options/RenderTweaks.antt =====
-- pkg/wrapper/actions.go: the JSON options contract.
use helm_c_sdk.Base.{Bool, List, String, [], false, ◌∷◌}
use helm_c_sdk.Json.Decode.{Table, bool_slot, string_slot, strings_slot}

pub record RenderTweaks : Type 0 where
  pub kube_version : String
  pub api_versions : List String
  pub post_renderer : String
  pub post_renderer_args : List String
  pub post_render_strategy : String
  pub enable_dns : Bool

abbrev pub no_render_tweaks : RenderTweaks
no_render_tweaks = record {
  kube_version = "";
  api_versions = [];
  post_renderer = "";
  post_renderer_args = [];
  post_render_strategy = "";
  enable_dns = false;
}

abbrev pub render_tweaks_fields : Table RenderTweaks
render_tweaks_fields =
    string_slot "kube_version" (λ v o. record o { kube_version = v })
    ∷ strings_slot "api_versions" (λ v o. record o { api_versions = v })
    ∷ string_slot "post_renderer" (λ v o. record o { post_renderer = v })
    ∷ strings_slot "post_renderer_args" (λ v o. record o { post_renderer_args = v })
    ∷ string_slot "post_render_strategy" (λ v o. record o { post_render_strategy = v })
    ∷ bool_slot "enable_dns" (λ v o. record o { enable_dns = v })
    ∷ []
