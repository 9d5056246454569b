-- ===== src/Tests/Operations.antt =====
-- The operations of pkg/wrapper on the small instance.
use helm_c_sdk.Base.{◌≡◌, refl, ◌⊎◌, Option, none, some, List, [], ◌∷◌, arith}
use helm_c_sdk.Base.Assoc.{lookup}
use helm_c_sdk.Result.{ok}
use helm_c_sdk.Go.{returns, fails}
use helm_c_sdk.Go.Ensures.{Ensures}
use helm_c_sdk.Json.{empty}
use helm_c_sdk.Options.Config.{ConfigOptions, no_config_options}
use helm_c_sdk.Options.Install.{InstallOptions, no_install_options}
use helm_c_sdk.Options.Upgrade.{UpgradeOptions, no_upgrade_options}
use helm_c_sdk.Options.Transfer.{no_pull_options}
use helm_c_sdk.Sdk.Structs.{Configuration, Outside, Dependency}
use helm_c_sdk.Sdk.Actions.{UpgradeAction}
use helm_c_sdk.Process.{Config, Object, Process}
use helm_c_sdk.Wrapper.Config.{write_temp_kubeconfig, new_action_configuration, close, new_config}
use helm_c_sdk.Wrapper.Config.Lifecycle.{
  pending_file, Owned, file_options, close_once, without_file, inline_kubeconfig-Owned,
}
use helm_c_sdk.Wrapper.Clients.{resolve_client, pull_chart}
use helm_c_sdk.Wrapper.Clients.Scratch.{pull_removes_scratch}
use helm_c_sdk.Wrapper.Dependencies.Status.{dependency_entries}
use helm_c_sdk.Wrapper.Dependencies.Status.Laws.{Lists, dependency_entries_complete}
use helm_c_sdk.Wrapper.Install.{install_release}
use helm_c_sdk.Wrapper.Install.Isolation.{client_install_isolated}
use helm_c_sdk.Wrapper.Strategies.{parse_dry_run}
use helm_c_sdk.Wrapper.Upgrade.{new_upgrade, upgrade_release}
use helm_c_sdk.Wrapper.Upgrade.Laws.{upgrade_stays}
use helm_c_sdk.Tests.Toy.{toy, toy_types, toy_keeps, toy_config, toy_process}

abbrev client_run : InstallOptions
client_run = record no_install_options { dry_run = "client" }

abbrev handle_two : Option (Object toy_types)
handle_two = some (Object.config 2)

client_install_isolated_example :
    let (r, q) =
      install_release toy none handle_two none "/charts/web" "web" empty client_run toy_process in
    lookup 1 q.configurations ≡ lookup 1 toy_process.configurations
unfolding parse_dry_run
client_install_isolated_example =
    client_install_isolated toy toy_keeps none handle_two none "/charts/web" "web" empty client_run
      1 toy_process refl (omega arith)

abbrev other_space : UpgradeOptions
other_space = record no_upgrade_options { namespace = "prod" }

abbrev both_given : ConfigOptions
both_given = record no_config_options { kubeconfig_path = "/k"; kubeconfig_content = "k" }

close_once_example :
    ((close toy 2 toy_process).outside
      ≡ without_file toy (pending_file 2 toy_process) toy_process.outside)
    × (pending_file 2 (close toy 2 toy_process) ≡ "")
    × (close toy 2 (close toy 2 toy_process) ≡ close toy 2 toy_process)
close_once_example = close_once toy 2 toy_process

abbrev one_dependency : List Dependency
one_dependency = record { name = "db"; version = "1"; repository = "" } ∷ []

dependency_entries_complete_example :
    Ensures (Lists one_dependency) (dependency_entries toy "/charts/web" "web" one_dependency)
dependency_entries_complete_example =
    dependency_entries_complete toy "/charts/web" "web" one_dependency

abbrev shared_configuration : Configuration toy_types
shared_configuration = toy.new_configuration 5

abbrev inline : ConfigOptions
inline = record no_config_options { kubeconfig_content = "k" }

abbrev initialised : Process toy_types
initialised =
    (new_action_configuration toy (file_options inline "/tmp/kube") "default" toy_process).1

inline_kubeconfig-Owned_example :
    Owned toy (ok 3) "/tmp/kube" initialised (new_config toy inline toy_process)
unfolding write_temp_kubeconfig helm_c_sdk.Go.◌>>=◌ helm_c_sdk.Process.Heap.outer
    new_action_configuration helm_c_sdk.Process.Heap.alloc_configuration
    helm_c_sdk.Process.Heap.act_at
inline_kubeconfig-Owned_example =
    inline_kubeconfig-Owned toy inline toy_process toy_process initialised "/tmp/kube" (ok 3) refl
      (λ e. cc) (λ e. cc) refl refl

pull_removes_scratch_example :
    (o : Outside toy_types) × ((pull_chart toy none "oci://x/web" no_pull_options
        toy_process).1.outside
      ≡ toy.remove_all "/tmp/dir" o)
unfolding resolve_client helm_c_sdk.Wrapper.Clients.default_client_for helm_c_sdk.Go.◌>>=◌
    helm_c_sdk.Wrapper.Clients.new_registry_client helm_c_sdk.Process.Heap.outer
    helm_c_sdk.Wrapper.Settings.private_temp_dir
pull_removes_scratch_example =
    pull_removes_scratch toy none "oci://x/web" no_pull_options toy_process toy_process toy_process
      (some "client") "/tmp/dir" refl refl

abbrev built : UpgradeAction toy_types
built = record (toy.new_upgrade 1) {
  namespace = "default";
  dry_run_strategy = "none";
  wait_strategy = "hookOnly";
  server_side_apply = "";
  post_render_strategy = "combined";
}

upgrade_stays_example :
    (built.cfg ≡ 1)
    × (built.namespace ≡ toy_config.namespace)
    × ((no_upgrade_options.namespace ≡ "") ⊎ (no_upgrade_options.namespace ≡ toy_config.namespace))
unfolding new_upgrade helm_c_sdk.Go.◌>>=◌ helm_c_sdk.Wrapper.Strategies.validate_server_side_apply
    parse_dry_run helm_c_sdk.Wrapper.Upgrade.apply_upgrade_options
    helm_c_sdk.Wrapper.Rendering.post_renderer_for
    helm_c_sdk.Wrapper.Strategies.parse_post_render_strategy
    helm_c_sdk.Wrapper.Strategies.apply_timeout helm_c_sdk.Wrapper.Strategies.default_wait_strategy
upgrade_stays_example =
    upgrade_stays toy toy_keeps toy_config no_upgrade_options toy_process built refl
