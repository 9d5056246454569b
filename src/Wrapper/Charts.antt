-- ===== src/Wrapper/Charts.antt =====
-- pkg/wrapper/chart.go and pkg/wrapper/json.go: objects behind handles, loading, and the values of
-- a caller.
pub mod Frame
use helm_c_sdk.Base.{Option, none, some, String, if◌then◌else◌}
use helm_c_sdk.Errors.{
  Err, plain, wrapped, new_error, code_wrong_handle_type, code_chart_load, code_values,
}
use helm_c_sdk.Result.{Result, ok, err, or_code}
use helm_c_sdk.Go.{Go, with_error_code}
use helm_c_sdk.Json.{Json, Fields, object, null, Document, empty, malformed, document}
use helm_c_sdk.Sdk.{Sdk}
use helm_c_sdk.Process.{Object, Process}
use helm_c_sdk.Process.Heap.{outer}

-- unmarshalValues: nil, or the object
unfoldable pub unmarshal_values : Document → Result (Option Fields)
unmarshal_values empty = ok none
unmarshal_values (malformed e) = or_code code_values (err (wrapped "invalid values JSON: " e))
unmarshal_values (document null) = ok none
unmarshal_values (document (object fs)) = ok (some fs)
unmarshal_values (document _) = or_code code_values (
    err (
      wrapped "invalid values JSON: "
        (plain "json: cannot unmarshal into Go value of type map[string]interface {}")))

module _ (sdk : Sdk) where
  open sdk use {types, Chart, Client}

  -- AsChart
  unfoldable pub as_chart : Option (Object types) → Result Chart
  as_chart (some (Object.chart c)) = ok c
  as_chart _ = err (new_error code_wrong_handle_type "handle does not hold a chart")

  -- AsRegistryClient
  unfoldable pub as_registry_client : Option (Object types) → Result Client
  as_registry_client (some (Object.client c)) = ok c
  as_registry_client _ =
      err (new_error code_wrong_handle_type "handle does not hold a registry client")

  -- LoadChart
  unfoldable pub load_chart : String → Go (Process types) Chart
  load_chart path = with_error_code code_chart_load (outer (sdk.load_chart path))
