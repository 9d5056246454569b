-- ===== src/Tests/Values.antt =====
-- Errors, options and lists of revisions at small inputs.
use helm_c_sdk.Base.{
  ℕ, ◌*◌, ◌≡◌, refl, ◌⊎◌, true, false, none, some, String, List, [], ◌∷◌, ◌++◌, arith, length,
}
use mathlib.Core.List.{Perm}
use helm_c_sdk.Base.Int.{pos, IsNeg}
use helm_c_sdk.Errors.{
  code_io, code_kube, code_release, code_repo, code_cancelled, code_not_found, code_invalid_arg,
  to_int32, Err, plain, sentinel, coded, wrapped, canceled, deadline_exceeded, release_not_found,
  with_code, from_error, new_error,
}
use helm_c_sdk.Errors.Laws.{
  Layer, prefix, code, under, prefixes, outermost_code_wins, from_error_sign,
}
use helm_c_sdk.Result.{err}
use helm_c_sdk.Json.{
  Json, boolean, text, object, Fields, field, no_fields, Document, document, malformed,
}
use helm_c_sdk.Json.Decode.{decode_options, find_slot}
use helm_c_sdk.Json.Strict.{here, there, unknown_key_fails}
use helm_c_sdk.Options.Release.{history_options_fields, no_history_options}
use Prim.Native.String.{◌++◌ as joined}
use helm_c_sdk.Base.Text.{quote}
use helm_c_sdk.Options.Show.{ShowOptions, no_show_options, parse_show_options}
use helm_c_sdk.Options.Shadowing.{show_devel_never_reaches_download}
use helm_c_sdk.Options.Dependency.{no_dependency_options}
use helm_c_sdk.Sdk.Structs.{Dependency}
use helm_c_sdk.Wrapper.Failures.{wrap_action_error}
use helm_c_sdk.Wrapper.Failures.Laws.{sentinel_code_survives, attached, attached_code_is_lost}
use helm_c_sdk.Wrapper.Strategies.{dry_run_client, parse_dry_run, parse_bool, apply_timeout}
use helm_c_sdk.Wrapper.Strategies.Laws.{fakes_only_on_request}
use helm_c_sdk.Wrapper.Strategies.Durations.{timeout_exact, timeout_overflows}
use helm_c_sdk.Wrapper.Dependencies.Repos.{
  is_http, repo_entries, registers, FreshUrls, repo_entries_cover,
}
use helm_c_sdk.Wrapper.Summaries.{ReleaseSummary}
use helm_c_sdk.Wrapper.Releases.History.{window, insert_summary, sort_summaries}
use helm_c_sdk.Wrapper.Releases.History.Newest.{older, Ascending, history_newest}

outermost_code_wins_example :
    (from_error (with_code code_repo (some (coded code_io (plain "x")))) ≡ code_repo)
    × (from_error (
          some
            (under (prefixes ("a: " ∷ "b: " ∷ [])) (coded code_repo (coded code_io (plain "x")))))
        ≡ code_repo)
outermost_code_wins_example =
    outermost_code_wins ("a: " ∷ "b: " ∷ []) code_repo (coded code_io (plain "x"))

from_error_sign_example :
    (to_int32 (from_error none) ≡ pos 0)
    × IsNeg (to_int32 (from_error (some (wrapped "a: " (coded code_io (plain "x"))))))
from_error_sign_example = from_error_sign (wrapped "a: " (coded code_io (plain "x"))) (λ e. cc, tt)

abbrev layers : List Layer
layers = prefix "run: " ∷ code code_io ∷ []

sentinel_code_survives_example :
    (from_error (wrap_action_error (some (under layers (sentinel canceled))) code_release)
      ≡ code_cancelled)
    × (from_error
          (wrap_action_error (some (under layers (sentinel deadline_exceeded))) code_release)
        ≡ code_cancelled)
    × (from_error
          (wrap_action_error (some (under layers (sentinel release_not_found))) code_release)
        ≡ code_not_found)
sentinel_code_survives_example = sentinel_code_survives layers code_release

attached_code_is_lost_example :
    from_error (
      wrap_action_error
        (some (attached (code_kube ∷ code_io ∷ []) (plain "fetching test logs")))
        code_release)
    ≡ from_error (wrap_action_error (some (plain "fetching test logs")) code_release)
attached_code_is_lost_example =
    attached_code_is_lost (code_kube ∷ code_io ∷ []) code_release (plain "fetching test logs")

abbrev misspelt : Fields
misspelt = field "max" (boolean true) (field "maxx" (boolean true) no_fields)

unknown_key_fails_example :
    (e : Err) × (decode_options history_options_fields no_history_options "history"
        (document (object misspelt))
      ≡ err e)
    × (from_error (some e) ≡ code_invalid_arg)
unfolding find_slot
unknown_key_fails_example =
    unknown_key_fails history_options_fields no_history_options "history" misspelt
      (there (here refl))

abbrev bad_text : Err
bad_text =
    coded code_invalid_arg (wrapped "invalid history options JSON: " (plain "unexpected EOF"))

abbrev show_devel : Document
show_devel = document (object (field "devel" (boolean true) no_fields))

abbrev shown : ShowOptions
shown = record no_show_options { devel = true }

show_devel_never_reaches_download_example : shown.chart_ref_options.devel ≡ false
unfolding parse_show_options decode_options helm_c_sdk.Json.Decode.decode
    helm_c_sdk.Json.Decode.decode_fields find_slot
show_devel_never_reaches_download_example = show_devel_never_reaches_download show_devel shown refl

fakes_only_on_request_example :
    (dry_run_client ≡ dry_run_client)
    × ((◌≡◌ {A = String} "true" dry_run_client) ⊎ (parse_bool "true" ≡ some true))
unfolding parse_dry_run parse_bool helm_c_sdk.Wrapper.Strategies.interacts_with_server
fakes_only_on_request_example = fakes_only_on_request "true" dry_run_client refl refl

abbrev refusal : Err
refusal = new_error code_invalid_arg (
    joined "invalid dry_run value "
      (joined (quote "maybe") ": must be \"none\", \"client\" or \"server\""))

timeout_exact_example : apply_timeout (pos 300) (pos 0) ≡ pos (300 * 1000000000)
timeout_exact_example = timeout_exact 300 (pos 0) (omega arith) (omega arith)

timeout_overflows_example : IsNeg (apply_timeout (pos 9223372037) (pos 0))
timeout_overflows_example = timeout_overflows 9223372037 (pos 0) (omega arith) (omega arith)

abbrev declared : List Dependency
declared =
    record { name = "a"; version = "1"; repository = "https://x" }
    ∷ record { name = "b"; version = "1"; repository = "oci://y" }
    ∷ record { name = "c"; version = "1"; repository = "https://x" }
    ∷ []

repo_entries_cover_example :
    FreshUrls [] (repo_entries no_dependency_options declared)
    × (registers "https://x" (repo_entries no_dependency_options declared) ≡ true)
unfolding is_http
repo_entries_cover_example = repo_entries_cover no_dependency_options declared "https://x" refl refl

abbrev revision_of : ℕ → ReleaseSummary
revision_of n = record {
  name = "web";
  namespace = "default";
  revision = pos n;
  status = "";
  notes = "";
  deployed_at = "";
  chart_name = "";
  chart_version = "";
  app_version = "";
  labels = [];
  manifest = "";
}

abbrev three : List ReleaseSummary
three = revision_of 2 ∷ revision_of 3 ∷ revision_of 1 ∷ []

history_newest_example :
    let kept = window (pos 2) three in
    let left_out = older 2 (sort_summaries three) in
    Perm (left_out ++ kept) three × Ascending (left_out ++ kept) × (length kept ≡ 2)
history_newest_example = history_newest 2 three (omega arith)

newest_two : window (pos 2) three ≡ revision_of 2 ∷ revision_of 3 ∷ []
unfolding window sort_summaries insert_summary
newest_two = refl
