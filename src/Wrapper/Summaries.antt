-- ===== src/Wrapper/Summaries.antt =====
-- pkg/wrapper/release.go: the summary of a release, and its JSON; finishRelease and summariesJSON of
-- pkg/wrapper/actions.go. Where Go returns a zero value beside an error, the model has `null`.
use helm_c_sdk.Base.{
  Bool, true, false, Option, none, some, String, List, [], ◌∷◌, str_eq, is_empty, if◌then◌else◌,
}
use helm_c_sdk.Base.Int.{ℤ, pos}
use helm_c_sdk.Errors.{Err, code_release}
use helm_c_sdk.Result.{Result, ok, err, or_code, ◌>>=◌}
use helm_c_sdk.Json.{
  Json, null, text, number, array, object, Fields, field, no_fields, Items, no_items, item,
}
use helm_c_sdk.Json.Decode.{StringMap}
use helm_c_sdk.Sdk.{Sdk}
use helm_c_sdk.Sdk.Structs.{ReleaseAccessor, ChartAccessor}
use helm_c_sdk.Wrapper.Failures.{wrap_action_error}

-- releaseSummary
pub record ReleaseSummary : Type 0 where
  pub name : String
  pub namespace : String
  pub revision : ℤ
  pub status : String
  pub notes : String
  pub deployed_at : String
  pub chart_name : String
  pub chart_version : String
  pub app_version : String
  pub labels : StringMap
  pub manifest : String

abbrev or_empty : Option String → String
or_empty none = ""
or_empty (some s) = s

-- The three fields that the chart of the release gives.
abbrev with_chart : Option (Result ChartAccessor) → ReleaseSummary → ReleaseSummary
with_chart none s = s
with_chart (some (err e)) s = s
with_chart (some (ok ca)) s = record s {
  chart_name = ca.name;
  chart_version = or_empty ca.version;
  app_version = or_empty ca.app_version;
}

abbrev summary_of : ReleaseAccessor → Bool → ReleaseSummary
summary_of acc include_manifest = with_chart acc.chart (record {
  name = acc.name;
  namespace = acc.namespace;
  revision = acc.version;
  status = acc.status;
  notes = acc.notes;
  labels = acc.labels;
  deployed_at = or_empty acc.deployed_at;
  chart_name = "";
  chart_version = "";
  app_version = "";
  manifest = if include_manifest then acc.manifest else "";
})

-- `,omitempty`
abbrev text_field : String → String → Fields → Fields
text_field key s rest = if str_eq s "" then rest else field key (text s) rest

map_fields : StringMap → Fields
map_fields [] = no_fields
map_fields ((k, v) ∷ m) = field k (text v) (map_fields m)

abbrev labels_field : StringMap → Fields → Fields
labels_field m rest = if is_empty m then rest else field "labels" (object (map_fields m)) rest

-- What marshalJSON makes of a summary, with the omitted fields left out.
unfoldable pub summary_json : ReleaseSummary → Json
unfolding map_fields
summary_json s = object (
    field "name" (text s.name) (
      field "namespace" (text s.namespace) (
        field "revision" (number s.revision (pos 0)) (
          field "status" (text s.status) (
            text_field "notes" s.notes (
              text_field "deployed_at" s.deployed_at (
                text_field "chart_name" s.chart_name (
                  text_field "chart_version" s.chart_version (
                    text_field "app_version" s.app_version
                      (labels_field s.labels (text_field "manifest" s.manifest no_fields)))))))))))

unfoldable pub summary_items : List ReleaseSummary → Items
summary_items [] = no_items
summary_items (s ∷ ss) = item (summary_json s) (summary_items ss)

-- The pair that `return "", err` makes, by whether the error is nil.
abbrev pub return_pair : {A : Type 0} → A → Option Err → Result A
return_pair a none = ok a
return_pair a (some e) = err e

module _ (sdk : Sdk) where
  open sdk use {Release}

  -- summarizeRelease
  unfoldable pub summarize_release : Release → Bool → Result ReleaseSummary
  summarize_release rel include_manifest = do
    acc ← or_code code_release (sdk.release_accessor rel)
    ok (summary_of acc include_manifest)

  -- summarizeReleases
  unfoldable pub summarize_releases : List Release → Result (List ReleaseSummary)
  summarize_releases [] = ok []
  summarize_releases (r ∷ rs) = do
    s ← summarize_release r false
    rest ← summarize_releases rs
    ok (s ∷ rest)

  -- finishRelease
  unfoldable pub finish_release : Result Release → Result Json
  finish_release (err e) = return_pair null (wrap_action_error (some e) code_release)
  finish_release (ok rel) = do s ← summarize_release rel true; ok (summary_json s)

  -- summariesJSON
  unfoldable pub summaries_json : Result (List Release) → Result Json
  summaries_json (err e) = return_pair null (wrap_action_error (some e) code_release)
  summaries_json (ok rels) = do ss ← summarize_releases rels; ok (array (summary_items ss))
