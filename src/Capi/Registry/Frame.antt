-- ===== src/Capi/Registry/Frame.antt =====
-- capi: reading the registry respects every relation.
use helm_c_sdk.Base.{ℕ, none}
use helm_c_sdk.Handles.{HandleType, type_chart, type_config, type_registry_client, get}
use helm_c_sdk.Sdk.Structs.{Types}
use helm_c_sdk.Process.Respects.{Frame, Respects, returned, lifted, bound, branched}
use helm_c_sdk.Capi.Registry.{
  registry_get, some_object, registry_client_or_nil, chart_or_nil, config_and_optional_chart,
}

module _ {types : Types} (F : Frame types) where
  pub get-Respects : (h : ℕ) (typ : HandleType) → Respects F (registry_get {t = types} h typ)
  unfolding registry_get
  get-Respects h typ = record { at = λ p. (lifted F (get h typ p.registry)).at p }

  optional-Respects :
      (h : ℕ) (typ : HandleType) → Respects F (some_object (registry_get {t = types} h typ))
  unfolding some_object
  optional-Respects h typ = bound F _ _ (get-Respects h typ) λ obj. returned F _

  pub client_or_nil-Respects : (h : ℕ) → Respects F (registry_client_or_nil {t = types} h)
  unfolding registry_client_or_nil
  client_or_nil-Respects h =
      branched F _ _ _ (returned F none) (optional-Respects h type_registry_client)

  pub chart_or_nil-Respects : (h : ℕ) → Respects F (chart_or_nil {t = types} h)
  unfolding chart_or_nil
  chart_or_nil-Respects h = branched F _ _ _ (returned F none) (optional-Respects h type_chart)

  pub config_and_chart-Respects :
      (cfg_h chart_h : ℕ) → Respects F (config_and_optional_chart {t = types} cfg_h chart_h)
  unfolding config_and_optional_chart
  config_and_chart-Respects cfg_h chart_h =
      bound F _ _ (get-Respects cfg_h type_config)
        λ cfg. bound F _ _ (chart_or_nil-Respects chart_h) λ chart. returned F _
