-- ===== src/Tests/Extras.antt =====
-- Release tests, registry clients and archives in memory, on the small instance.
use helm_c_sdk.Base.{String, ℕ, ◌^◌, ◌<◌, ◌≤◌, ◌≡◌, refl, ◌⊎◌, none, some, [], ◌∷◌, take}
use helm_c_sdk.Errors.{Err, plain, code_release, code_invalid_arg, new_error}
use helm_c_sdk.Result.{Result, ok}
use helm_c_sdk.Go.{Go, returns, fails, attempt}
use helm_c_sdk.Options.ChartRef.{no_chart_ref_options}
use helm_c_sdk.Options.Show.{no_show_options}
use helm_c_sdk.Sdk.{Sdk}
use helm_c_sdk.Options.Testing.{no_test_options}
use helm_c_sdk.Sdk.Structs.{Configuration, Outside}
use helm_c_sdk.Process.{Object, Process}
use helm_c_sdk.Process.Heap.{alloc_configuration, act_at, deref_configuration}
use helm_c_sdk.Wrapper.Failures.{wrap_action_error}
use helm_c_sdk.Wrapper.ChartRef.{ResolvedChart, pull_chart_ref}
use helm_c_sdk.Wrapper.Show.{show_config, show_chart}
use helm_c_sdk.Wrapper.Show.Scratch.{IsSwept, show_removes_scratch}
use helm_c_sdk.Wrapper.Testing.{test, set_config_registry_client}
use helm_c_sdk.Wrapper.Testing.Cleanup.{test_shuts_down, test_failure_first}
use helm_c_sdk.Capi.Boundary.{holds, clear_error_out, failure, handle_result}
use helm_c_sdk.Capi.Charts.{helm_chart_load_archive}
use helm_c_sdk.Capi.Charts.Archive.{load_whole, load_archive_bounded}
use helm_c_sdk.Tests.Toy.{toy, toy_types, toy_test, toy_config, toy_process}

-- The process once the pods are deleted.
abbrev pods_gone : Outside toy_types
pods_gone = record { world = "pods" ∷ []; cancelled = 7 ∷ [] }

test_shuts_down_example :
    (test toy "web" no_test_options toy_config toy_process).1
    ≡ record toy_process { outside = pods_gone }
unfolding act_at helm_c_sdk.Wrapper.Testing.collect_test_logs helm_c_sdk.Go.pure
test_shuts_down_example =
    test_shuts_down toy "web" no_test_options toy_config toy_test ("", none)
      (λ o. (returns tt, record o { world = "pods" ∷ o.world })) toy_process toy_process toy_process
      refl refl refl

test_failure_first_example :
    (y : Err) × (wrap_action_error (some (plain "test failed")) code_release ≡ some y)
    × (test toy "web" no_test_options toy_config toy_process
        ≡ (fails y, record toy_process { outside = pods_gone }))
unfolding act_at helm_c_sdk.Wrapper.Testing.collect_test_logs helm_c_sdk.Go.pure
    helm_c_sdk.Wrapper.Testing.shut_down helm_c_sdk.Go.◌>>=◌ helm_c_sdk.Process.Heap.outer
test_failure_first_example =
    test_failure_first toy "web" no_test_options toy_config toy_test ("", none) none
      (plain "test failed") toy_process toy_process toy_process
      (record toy_process { outside = pods_gone }) refl refl refl refl

abbrev toy_shared : Configuration toy_types
toy_shared = toy.new_configuration 5

abbrev stated : ℕ
stated = 2

load_archive_bounded_example :
    ((0 < stated)
      × (stated < 2 ^ 31)
      × (helm_chart_load_archive toy
            (some (31 ∷ 139 ∷ 8 ∷ []))
            stated
            (holds 0)
            (holds none)
            toy_process
          ≡ handle_result
              (holds 0)
              (holds none)
              (load_whole toy (take stated (31 ∷ 139 ∷ 8 ∷ [])))
              toy_process))
    ⊎ (((stated ≡ 0) ⊎ (2 ^ 31 ≤ stated))
        × (helm_chart_load_archive toy
              (some (31 ∷ 139 ∷ 8 ∷ []))
              stated
              (holds 0)
              (holds none)
              toy_process
            ≡ (
              failure
                  (holds 0)
                  (clear_error_out (holds none))
                  (new_error code_invalid_arg "length must be 1..2^31-1"),
              toy_process,
            )))
load_archive_bounded_example =
    load_archive_bounded toy (31 ∷ 139 ∷ 8 ∷ []) stated 0 (holds none) toy_process

-- The same instance where no chart is local, and a download leaves one archive.
abbrev remote : Sdk
remote = record toy {
  stat = λ path o. (fails (plain "no such file"), o);
  read_dir = λ path o. (returns ("web-1.0.0.tgz" ∷ []), o);
}

abbrev shared_made : Process toy_types
shared_made =
    (alloc_configuration (record (toy.new_configuration 0) { registry_client = some "client" })
      toy_process).1

abbrev pull_shown : Go (Process toy_types) (Result (ResolvedChart String))
pull_shown =
    attempt (pull_chart_ref remote (show_config remote 3) "oci://r/web" no_chart_ref_options)

show_removes_scratch_example :
    IsSwept remote "/tmp/dir" (show_chart remote none "oci://r/web" no_show_options toy_process).1
unfolding helm_c_sdk.Wrapper.Show.show_format helm_c_sdk.Wrapper.Clients.resolve_client
    helm_c_sdk.Wrapper.Clients.default_client_for helm_c_sdk.Go.◌>>=◌
    helm_c_sdk.Wrapper.Clients.new_registry_client helm_c_sdk.Process.Heap.outer alloc_configuration
    helm_c_sdk.Wrapper.Settings.private_temp_dir pull_chart_ref deref_configuration
    helm_c_sdk.Wrapper.Clients.pull_chart helm_c_sdk.Wrapper.Charts.as_registry_client
    helm_c_sdk.Wrapper.Charts.load_chart
show_removes_scratch_example =
    show_removes_scratch remote none "oci://r/web" "all" "/tmp/dir" no_show_options (some "client")
      (plain "no such file") 3 (ok (record { chart = "/tmp/dir/web-1.0.0.tgz"; dir = "" }))
      toy_process toy_process toy_process shared_made shared_made (pull_shown shared_made).1
      (λ c d o. tt) refl refl refl refl refl refl
