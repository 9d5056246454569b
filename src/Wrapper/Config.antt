-- ===== src/Wrapper/Config.antt =====
-- pkg/wrapper/config.go: the configuration object behind a handle, its sibling configurations, and
-- the private file of inline kubeconfig content.
pub mod Lifecycle
pub mod Siblings
pub mod Frame
use Prim.Native.String.{◌++◌}
use helm_c_sdk.Base.{
  ℕ, ◌+◌, Bool, true, false, not, ◌&&◌, Option, none, some, String, ltb, str_eq, if◌then◌else◌,
}
use helm_c_sdk.Base.Int.{ℤ, pos, negsuc}
use helm_c_sdk.Base.Assoc.{lookup, insert}
use helm_c_sdk.Errors.{
  Err, new_error, coded, code_invalid_arg, code_io, code_kube, code_wrong_handle_type,
}
use helm_c_sdk.Result.{Result, ok, err, or_code}
use helm_c_sdk.Go.{
  Outcome, returns, fails, panics, Go, pure, fail, lift, gets, modify, ◌>>=◌, ◌>>◌, with_error_code,
  attempt,
}
use helm_c_sdk.Options.Config.{ConfigOptions}
use helm_c_sdk.Sdk.{Sdk}
use helm_c_sdk.Sdk.Structs.{Configuration, Settings, Outside}
use helm_c_sdk.Process.{Config, Object, Process}
use helm_c_sdk.Process.Heap.{
  alloc_configuration, alloc_config, deref_configuration, deref_config, outer, act_at,
}
use helm_c_sdk.Wrapper.Settings.{new_settings, remove_best_effort}

abbrev pub positive : ℤ → Bool
positive (pos n) = ltb 0 n
positive (negsuc n) = false

-- applyKubeSettings. The conversion of the query limit to float32 is not modelled.
unfoldable pub apply_kube_settings : ConfigOptions → Settings → Settings
apply_kube_settings opts s = record s {
  kube_context = opts.kube_context;
  kube_token = opts.kube_token;
  kube_api_server = opts.kube_api_server;
  kube_ca_file = opts.kube_ca_file;
  kube_tls_server_name = opts.kube_tls_server_name;
  kube_insecure_skip_tls_verify = opts.kube_insecure_skip_tls_verify;
  kube_as_user = opts.kube_as_user;
  kube_as_groups = opts.kube_as_groups;
  burst_limit = if positive opts.burst_limit then opts.burst_limit else s.burst_limit;
  qps = if positive opts.qps.0 then opts.qps else s.qps;
}

abbrev pub set_kube_config : ConfigOptions → Settings → Settings
set_kube_config opts s =
    if not (str_eq opts.kubeconfig_path "")
    then record s { kube_config = opts.kubeconfig_path }
    else s

module _ (sdk : Sdk) where
  open sdk use {types}

  -- The first failure of a sequence of file operations.
  abbrev both : Result (Unit {0}) → Result (Unit {0}) → Result (Unit {0})
  both (ok tt) second = second
  both (err e) second = err e

  write_if : Result (Unit {0}) → String → String → Go (Process types) (Result (Unit {0}))
  write_if (ok tt) path content = attempt (outer (sdk.write_string path content))
  write_if (err e) path content = pure (err e)

  finish_temp : Result (Unit {0}) → String → Go (Process types) String
  finish_temp (ok tt) path = pure path
  finish_temp (err e) path = do modify (remove_best_effort sdk path); fail (coded code_io e)

  -- writeTempKubeconfig
  unfoldable pub write_temp_kubeconfig : String → Go (Process types) String
  unfolding write_if finish_temp
  write_temp_kubeconfig content = do
    path ← with_error_code code_io (outer (sdk.create_temp "helm-c-kubeconfig-*"))
    private ← attempt (outer (sdk.chmod_private path))
    written ← write_if private path content
    closed ← attempt (outer (sdk.close_file path))
    finish_temp (both written closed) path

  -- newActionConfiguration
  unfoldable pub new_action_configuration : ConfigOptions → String → Go (Process types) ℕ
  new_action_configuration opts namespace = do
    initial ← gets (λ p. new_settings sdk p.outside)
    let settings = record (apply_kube_settings opts (set_kube_config opts initial)) {
      namespace = namespace;
    }
    handler ← gets (λ p. p.log_handler)
    cfg ← alloc_configuration (sdk.new_configuration handler)
    with_error_code code_kube
        (act_at cfg (sdk.init (sdk.rest_client_getter settings) namespace opts.storage_driver))
    pure cfg

  -- The two ways out of NewConfig once the kubeconfig is in place.
  finish_config : ConfigOptions → String → String → Result ℕ → Go (Process types) ℕ
  finish_config opts namespace temp (ok cfg) =
      alloc_config
        (record { cfg = cfg; namespace = namespace; opts = opts; temp_kubeconfig = temp })
  finish_config opts namespace temp (err e) = do
    modify (λ p. if not (str_eq temp "") then remove_best_effort sdk temp p else p)
    fail e

  abbrev pub default_namespace : String → String
  default_namespace ns = if str_eq ns "" then "default" else ns

  config_from : ConfigOptions → String → Go (Process types) ℕ
  unfolding finish_config
  config_from opts temp = do
    made ← attempt (new_action_configuration opts (default_namespace opts.namespace))
    finish_config opts (default_namespace opts.namespace) temp made

  config_from_content : ConfigOptions → Go (Process types) ℕ
  unfolding config_from
  config_from_content opts = do
    path ← write_temp_kubeconfig opts.kubeconfig_content
    config_from (record opts { kubeconfig_content = ""; kubeconfig_path = path }) path

  -- NewConfig
  unfoldable pub new_config : ConfigOptions → Go (Process types) ℕ
  unfolding config_from_content
  new_config opts =
      if not (str_eq opts.kubeconfig_path "") && not (str_eq opts.kubeconfig_content "")
      then fail (
          new_error code_invalid_arg
            "kubeconfig_path and kubeconfig_content are mutually exclusive")
      else if not (str_eq opts.kubeconfig_content "")
      then config_from_content opts
      else config_from opts ""

  -- Config.forNamespace
  unfoldable pub for_namespace : Config → String → Go (Process types) ℕ
  for_namespace c namespace =
      if str_eq namespace c.namespace then pure c.cfg else new_action_configuration c.opts namespace

  -- Config.detachedConfiguration, of the configuration at `cfg`
  unfoldable pub detached_configuration : ℕ → Go (Process types) ℕ
  detached_configuration cfg = do
    shared ← deref_configuration cfg
    alloc_configuration (record (sdk.new_configuration shared.logger) {
      rest_client_getter = shared.rest_client_getter;
      releases = shared.releases;
      kube_client = shared.kube_client;
      registry_client = shared.registry_client;
      capabilities = shared.capabilities;
      custom_template_funcs = shared.custom_template_funcs;
      hook_output_func = shared.hook_output_func;
    })

  close_at : ℕ → Config → Process types → Process types
  close_at ref c p =
      if not (str_eq c.temp_kubeconfig "")
      then (let q = remove_best_effort sdk c.temp_kubeconfig p in
          record q { configs = insert ref (record c { temp_kubeconfig = "" }) q.configs })
      else p

  -- Config.Close
  unfoldable pub close : ℕ → Process types → Process types
  unfolding close_at
  close ref p = elim (lookup ref p.configs) [ none ↦ p | some c ↦ close_at ref c p ]

  -- CloseConfig
  unfoldable pub close_config : Object types → Process types → Process types
  close_config (Object.config ref) p = close ref p
  close_config _ p = p

  -- AsConfig. `none` is the nil interface.
  unfoldable pub as_config : Option (Object types) → Result ℕ
  as_config (some (Object.config ref)) = ok ref
  as_config _ = err (new_error code_wrong_handle_type "handle does not hold a config")
