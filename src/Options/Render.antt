-- ===== src/Options/Render.antt =====
-- pkg/wrapper/render.go: the JSON options contract.
use helm_c_sdk.Base.{
  str_eq, not, true, ◌&&◌, if◌then◌else◌, ◌==◌, Bool, List, String, [], false, ◌∷◌,
}
use helm_c_sdk.Base.Int.{pos, ℤ}
use helm_c_sdk.Json.{Document}
use helm_c_sdk.Result.{Result, ok, ◌>>=◌}
use helm_c_sdk.Json.Decode.{decode_options, Table, bool_slot, int_slot, string_slot, strings_slot}

pub record RenderOptions : Type 0 where
  pub name : String
  pub namespace : String
  pub revision : ℤ
  pub is_install : Bool
  pub is_upgrade : Bool
  pub kube_version : String
  pub api_versions : List String
  pub strict : Bool
  pub enable_dns : Bool

abbrev pub no_render_options : RenderOptions
no_render_options = record {
  name = "";
  namespace = "";
  revision = pos 0;
  is_install = false;
  is_upgrade = false;
  kube_version = "";
  api_versions = [];
  strict = false;
  enable_dns = false;
}

abbrev pub render_options_fields : Table RenderOptions
render_options_fields =
    string_slot "name" (λ v o. record o { name = v })
    ∷ string_slot "namespace" (λ v o. record o { namespace = v })
    ∷ int_slot "revision" (λ v o. record o { revision = v })
    ∷ bool_slot "is_install" (λ v o. record o { is_install = v })
    ∷ bool_slot "is_upgrade" (λ v o. record o { is_upgrade = v })
    ∷ string_slot "kube_version" (λ v o. record o { kube_version = v })
    ∷ strings_slot "api_versions" (λ v o. record o { api_versions = v })
    ∷ bool_slot "strict" (λ v o. record o { strict = v })
    ∷ bool_slot "enable_dns" (λ v o. record o { enable_dns = v })
    ∷ []

abbrev default_render_name : String
default_render_name = "release-name"

abbrev default_render_namespace : String
default_render_namespace = "default"

abbrev default_render_revision : ℤ
default_render_revision = pos 1

abbrev pub or_text : String → String → String
or_text s d = if str_eq s "" then d else s

abbrev or_number : ℤ → ℤ → ℤ
or_number (pos n) d = if n == 0 then d else pos n
or_number z d = z

-- The defaults of `helm template`.
unfoldable pub render_defaults : RenderOptions → RenderOptions
render_defaults o = record o {
  name = or_text o.name default_render_name;
  namespace = or_text o.namespace default_render_namespace;
  revision = or_number o.revision default_render_revision;
  is_install = if not o.is_install && not o.is_upgrade then true else o.is_install;
}

unfoldable pub parse_render_options : Document → Result RenderOptions
unfolding render_defaults
parse_render_options d = do
  o ← decode_options render_options_fields no_render_options "render" d
  ok (render_defaults o)
