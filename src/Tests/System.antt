-- ===== src/Tests/System.antt =====
-- Sequences of calls of the C ABI on the small instance.
use helm_c_sdk.Base.{ℕ, ◌≡◌, ◌⊎◌, refl, none, some, List, [], ◌∷◌}
use helm_c_sdk.Errors.{Err}
use helm_c_sdk.Result.{ok, err}
use helm_c_sdk.Go.{returns, fails}
use helm_c_sdk.Handles.{new_registry, get, type_chart, type_config, type_registry_client}
use helm_c_sdk.Process.{Object, Process}
use helm_c_sdk.Wrapper.Config.{as_config}
use helm_c_sdk.Wrapper.Charts.{as_chart, as_registry_client}
use helm_c_sdk.Capi.Boundary.{holds, null}
use helm_c_sdk.Capi.Contexts.{ctx_entry_for}
use helm_c_sdk.Capi.System.{Use, Request, serve_use, serve_all}
use helm_c_sdk.Capi.System.Frame.{uses_keep_handles}
use helm_c_sdk.Capi.System.Typing.{casts_succeed, assertion_never_panics}
use helm_c_sdk.Tests.Toy.{toy, toy_types, toy_process}

abbrev fresh : Process toy_types
fresh = record toy_process { registry = new_registry }

-- Two contexts, the first one freed; then an attempt to free the second as a chart.
abbrev two_contexts : List (Request toy_types)
two_contexts =
    Request.context_new (holds 0) null
    ∷ Request.context_new (holds 0) (holds none)
    ∷ Request.context_free 1 null
    ∷ Request.chart_free 2 (holds none)
    ∷ []

casts_succeed_example :
    (((e : Err) × (get 2 type_config (serve_all toy two_contexts fresh).registry ≡ err e))
      ⊎ ((obj : Object toy_types) × (get 2 type_config (serve_all toy two_contexts fresh).registry
            ≡ ok obj)
          × ((ref : ℕ) × (as_config toy (some obj) ≡ ok ref))))
    × (((e : Err) × (get 2 type_chart (serve_all toy two_contexts fresh).registry ≡ err e))
        ⊎ ((obj : Object toy_types) × (get 2 type_chart (serve_all toy two_contexts fresh).registry
              ≡ ok obj)
            × ((c : toy_types.Chart) × (as_chart toy (some obj) ≡ ok c))))
    × (((e : Err) × (get 2 type_registry_client (serve_all toy two_contexts fresh).registry
            ≡ err e))
        ⊎ ((obj : Object toy_types) × (get 2 type_registry_client
                (serve_all toy two_contexts fresh).registry
              ≡ ok obj)
            × ((c : toy_types.Client) × (as_registry_client toy (some obj) ≡ ok c))))
casts_succeed_example = casts_succeed toy two_contexts fresh 2 refl

assertion_never_panics_example :
    ((e : Err) × (ctx_entry_for 2 (serve_all toy two_contexts fresh)
        ≡ (fails e, serve_all toy two_contexts fresh)))
    ⊎ ((c : ℕ) × (ctx_entry_for 2 (serve_all toy two_contexts fresh)
          ≡ (returns c, serve_all toy two_contexts fresh)))
assertion_never_panics_example = assertion_never_panics toy two_contexts fresh 2 refl

uses_keep_handles_example :
    (serve_use toy (Use.context_cancel 2 null) (serve_all toy two_contexts fresh)).registry
    ≡ (serve_all toy two_contexts fresh).registry
uses_keep_handles_example =
    uses_keep_handles toy (Use.context_cancel 2 null) (serve_all toy two_contexts fresh)
