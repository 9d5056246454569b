-- ===== src/Tests/Toy.antt =====
-- A small instance of the code that is not in the repository, on which the theorems are tried: charts
-- and files are texts, a chart depends on nothing, calls succeed, and an install overwrites its
-- configuration's clients, as a client-side dry run of the SDK does.
use helm_c_sdk.Base.{ℕ, true, false, none, some, String, List, [], ◌∷◌, str_eq, refl}
use helm_c_sdk.Base.Int.{pos}
use helm_c_sdk.Errors.{plain}
use helm_c_sdk.Result.{ok}
use helm_c_sdk.Json.{text, null}
use helm_c_sdk.Go.{returns}
use helm_c_sdk.Options.Config.{no_config_options}
use helm_c_sdk.Sdk.{Sdk, KeepConfiguration}
use helm_c_sdk.Sdk.Structs.{
  Types, Configuration, Settings, ReleaseAccessor, ReleaseParts, Descriptor,
}
use helm_c_sdk.Sdk.Actions.{
  InstallAction, UpgradeAction, UninstallAction, RollbackAction, ListAction, TestAction, TestRun,
}
use helm_c_sdk.Process.{Config, Process}

-- The world is the list of the paths that were removed.
abbrev pub toy_types : Types
toy_types = record {
  World = List String;
  Chart = String;
  Release = ReleaseAccessor;
  Constraint = String;
  Version = String;
  Client = String;
  Getter = Settings;
  Kube = ℕ;
  Storage = ℕ;
  Capabilities = ℕ;
  TemplateFuncs = ℕ;
  HookOutput = ℕ;
  Handler = ℕ;
  KubeVersion = String;
  PostRenderer = String;
  Values = String;
  Index = String;
  Repository = String;
}

abbrev toy_release : ReleaseAccessor
toy_release = record {
  name = "web";
  namespace = "default";
  version = pos 1;
  status = "deployed";
  notes = "";
  labels = [];
  deployed_at = none;
  chart = none;
  manifest = "";
}

abbrev toy_settings : Settings
toy_settings = record {
  kube_config = "";
  kube_context = "";
  kube_token = "";
  kube_api_server = "";
  kube_ca_file = "";
  kube_tls_server_name = "";
  kube_insecure_skip_tls_verify = false;
  kube_as_user = "";
  kube_as_groups = [];
  burst_limit = pos 0;
  qps = (pos 0, pos 0);
  namespace = "";
  repository_config = "";
  repository_cache = "";
  content_cache = "";
}

abbrev toy_configuration : ℕ → Configuration toy_types
toy_configuration h = record {
  logger = h;
  rest_client_getter = none;
  releases = 0;
  kube_client = 0;
  registry_client = none;
  capabilities = none;
  custom_template_funcs = 0;
  hook_output_func = 0;
}

abbrev toy_install : ℕ → InstallAction toy_types
toy_install c = record {
  cfg = c;
  release_name = "";
  namespace = "";
  dry_run_strategy = "";
  timeout = pos 0;
  wait_strategy = "";
  server_side_apply = false;
  create_namespace = false;
  rollback_on_failure = false;
  description = "";
  labels = [];
  disable_hooks = false;
  force_replace = false;
  force_conflicts = false;
  replace = false;
  skip_crds = false;
  wait_for_jobs = false;
  take_ownership = false;
  sub_notes = false;
  hide_notes = false;
  hide_secret = false;
  skip_schema_validation = false;
  disable_openapi_validation = false;
  enable_dns = false;
  devel = false;
  dependency_update = false;
  kube_version = none;
  api_versions = [];
  post_renderer = none;
  post_render_strategy = "";
}

abbrev toy_upgrade : ℕ → UpgradeAction toy_types
toy_upgrade c = record {
  cfg = c;
  namespace = "";
  dry_run_strategy = "";
  timeout = pos 0;
  wait_strategy = "";
  server_side_apply = "";
  max_history = pos 0;
  reset_values = false;
  reuse_values = false;
  reset_then_reuse_values = false;
  cleanup_on_fail = false;
  rollback_on_failure = false;
  description = "";
  labels = [];
  install = false;
  disable_hooks = false;
  force_replace = false;
  force_conflicts = false;
  skip_crds = false;
  wait_for_jobs = false;
  take_ownership = false;
  sub_notes = false;
  hide_notes = false;
  hide_secret = false;
  skip_schema_validation = false;
  disable_openapi_validation = false;
  enable_dns = false;
  devel = false;
  dependency_update = false;
  post_renderer = none;
  post_render_strategy = "";
}

abbrev toy_uninstall : ℕ → UninstallAction
toy_uninstall c = record {
  cfg = c;
  timeout = pos 0;
  wait_strategy = "";
  keep_history = false;
  dry_run = false;
  ignore_not_found = false;
  description = "";
  disable_hooks = false;
  deletion_propagation = "";
}

abbrev toy_rollback : ℕ → RollbackAction
toy_rollback c = record {
  cfg = c;
  dry_run_strategy = "";
  timeout = pos 0;
  wait_strategy = "";
  server_side_apply = "";
  version = pos 0;
  wait_for_jobs = false;
  disable_hooks = false;
  force_replace = false;
  force_conflicts = false;
  cleanup_on_fail = false;
  max_history = pos 0;
}

abbrev toy_list : ℕ → ListAction
toy_list c = record {
  cfg = c;
  all = false;
  all_namespaces = false;
  limit = pos 0;
  offset = pos 0;
  filter = "";
  selector = "";
  by_date = false;
  sort_reverse = false;
  deployed = false;
  failed = false;
  pending = false;
  superseded = false;
  uninstalled = false;
  uninstalling = false;
  state_mask_set = false;
}

abbrev toy_testing : ℕ → TestAction
toy_testing c = record { cfg = c; namespace = ""; timeout = pos 0; filters = [] }

-- The test fails, and its pods are there to be deleted.
abbrev pub toy_test : TestRun toy_types
toy_test = record {
  release = some toy_release;
  shutdown = some (λ o. (returns tt, record o { world = "pods" ∷ o.world }));
  failure = some (plain "test failed");
}

abbrev toy_parts : ReleaseParts
toy_parts = record { hook_events = ("test" ∷ []) ∷ []; hooks = null; config = null; info = null }

abbrev toy_descriptor : Descriptor
toy_descriptor = record { digest = ""; media_type = ""; size = pos 0 }

abbrev pub toy : Sdk
toy = record {
  types = toy_types;
  create_temp = λ s o. (returns "/tmp/kube", o);
  chmod_private = λ s o. (returns tt, o);
  write_string = λ s t o. (returns tt, o);
  close_file = λ s o. (returns tt, o);
  remove_all = λ s o. record o { world = s ∷ o.world };
  mkdir_temp = λ s o. (returns "/tmp/dir", o);
  stat = λ s o. (returns true, o);
  read_dir = λ s o. (returns [], o);
  glob = λ s o. (returns [], o);
  temp_dir = "/tmp";
  discard_handler = 0;
  cli_new = λ o. toy_settings;
  rest_client_getter = λ s. s;
  default_handler = 0;
  new_configuration = toy_configuration;
  init = λ g namespace driver c o. (returns tt, record c { kube_client = 1 }, o);
  is_reachable = λ k o. (returns tt, o);
  new_install = toy_install;
  install_run = λ a ctx c vals cfg o.
      (returns toy_release, record cfg { kube_client = 99; releases = 99 }, o);
  new_upgrade = toy_upgrade;
  upgrade_run = λ a ctx name c vals cfg o. (returns toy_release, cfg, o);
  new_uninstall = toy_uninstall;
  uninstall_run = λ a name cfg o. (returns none, cfg, o);
  new_rollback = toy_rollback;
  rollback_run = λ a name cfg o. (returns tt, cfg, o);
  new_list = toy_list;
  list_run = λ a cfg o. (returns [], cfg, o);
  status_run = λ v name cfg o. (returns toy_release, cfg, o);
  history_run = λ name cfg o. (returns [], cfg, o);
  get_run = λ v name cfg o. (returns toy_release, cfg, o);
  metadata_run = λ v name cfg o. (returns (text name), cfg, o);
  values_run = λ every v name cfg o. (returns (text name), cfg, o);
  new_testing = toy_testing;
  test_run = λ a name cfg o. (returns toy_test, cfg, o);
  get_pod_logs = λ a rel cfg o. (returns ("log", none), cfg, o);
  compile_regexp = λ s. none;
  check_dependencies = λ c. none;
  release_accessor = ok;
  nil_release = plain "unsupported release type";
  hook_test = "test";
  release_parts = λ r. some toy_parts;
  declared_dependencies = λ c. ok [];
  chart_name = λ c. c;
  chart_version = λ c. "1.0.0";
  metadata_dependencies = λ c. [];
  subcharts = λ c. [];
  load_chart = λ s o. (returns s, o);
  save_chart = λ c dir o. (returns c, o);
  show_run = λ a path o. (returns path, o);
  load_archive = λ bs o. (returns "chart", o);
  chart_metadata = λ c o. text c;
  chart_values = λ c o. ok (text c);
  chart_files = λ c o. ("README.md", c) ∷ [];
  chart_templates = λ c o. [];
  chart_crds = λ c o. [];
  chart_schema = λ c o. "";
  validate_release_name = λ s. none;
  validate_metadata_name = λ s. none;
  save_chart_dir = λ c dir o. (returns tt, o);
  expand_file = λ dir archive o. (returns tt, o);
  create_chart = λ name dir o. (returns name, o);
  create_chart_from = λ m dir starter o. (returns tt, o);
  digest_file = λ path o. (returns path, o);
  read_values = λ s. ok (ok (text s));
  strvals_parse = λ s. ok (ok (text s));
  strvals_parse_string = λ s. ok (ok (text s));
  strvals_parse_json = λ s. ok (ok (text s));
  strvals_parse_literal = λ s. ok (ok (text s));
  strvals_parse_file = λ s o. (returns (ok (text s)), o);
  coalesce_values = λ c fs o. (returns c, o);
  values_json = λ v. ok (text v);
  validate_against_schema = λ c v o. (returns tt, o);
  verify_chart = λ path prov ring o.
      (returns (record { file_name = path; file_hash = prov; signers = ring ∷ [] }), o);
  new_chart_repository = λ e s. ok e.url;
  download_index = λ r dir o. (returns dir, o);
  load_index = λ path o. (returns path, o);
  index_directory = λ dir url o. (returns dir, o);
  merge_index = λ i j. i;
  sort_entries = λ i. i;
  write_index = λ i path o. (returns tt, o);
  write_index_json = λ i path o. (returns tt, o);
  index_json = λ i. ok (text i);
  parse_kube_version = ok;
  new_post_renderer = λ s args o. (returns s, o);
  is_oci = λ s. true;
  new_client = λ opts o. (returns "client", o);
  login = λ c host opts o. (returns tt, o);
  logout = λ c host o. (returns tt, o);
  tags = λ c ref o. (returns [], o);
  resolve = λ c ref o. (returns toy_descriptor, o);
  push_run = λ a path remote o. (returns remote, o);
  pull_run = λ a s o. (returns "", o);
  manager_update = λ m o. (returns tt, o);
  manager_build = λ m o. (returns tt, o);
  write_repo_file = λ es s o. (returns tt, o);
  strict_version = λ bs. true;
  new_constraint = ok;
  new_version = ok;
  satisfies = str_eq;
}

pub toy_keeps : KeepConfiguration toy
toy_keeps = record { install = λ c. refl; upgrade = λ c. refl }

abbrev pub toy_config : Config
toy_config = record {
  cfg = 1;
  namespace = "default";
  opts = no_config_options;
  temp_kubeconfig = "/tmp/kube";
}

-- One configuration, with a *Config that points at it; context 7 is cancelled.
abbrev pub toy_process : Process toy_types
toy_process = record {
  registry = record { next_id = 0; entries = [] };
  configurations = (1, toy_configuration 5) ∷ [];
  configs = (2, toy_config) ∷ [];
  next_ref = 3;
  log_handler = 5;
  outside = record { world = []; cancelled = 7 ∷ [] };
}
