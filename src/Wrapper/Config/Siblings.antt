-- ===== src/Wrapper/Config/Siblings.antt =====
-- pkg/wrapper/config.go: configurations derived from a shared one.
use helm_c_sdk.Base.{
  ℕ, Bool-cases, inl, inr, suc, ◌≡◌, refl, ◌≢◌, ◌<◌, false, some, String, arith, str_eq,
}
use helm_c_sdk.Base.Assoc.{lookup, insert, lookup-insert}
use helm_c_sdk.Errors.{code_kube}
use helm_c_sdk.Go.{returns}
use helm_c_sdk.Go.Laws.{bind-returns}
use helm_c_sdk.Process.Heap.{at, deref_configuration, alloc_configuration}
use helm_c_sdk.Options.Config.{ConfigOptions}
use helm_c_sdk.Sdk.{Sdk}
use helm_c_sdk.Sdk.Structs.{Configuration}
use helm_c_sdk.Process.{Config, Process}
use helm_c_sdk.Process.Frame.{
  Spares, Any, Spares-pure, Spares-bind, Spares-alloc, Spares-act_at, Spares-with_error_code,
  Spares-gets, Spares-deref_configuration, Spares-Any,
}
use helm_c_sdk.Wrapper.Config.{new_action_configuration, for_namespace, detached_configuration}

module _ (sdk : Sdk) (ref : ℕ) where
  open sdk use {types}

  pub new_action_configuration-Spares :
      (opts : ConfigOptions) (namespace : String)
      → Spares ref (λ a. a ≢ ref) (new_action_configuration sdk opts namespace)
  unfolding new_action_configuration
  new_action_configuration-Spares opts namespace =
      Spares-bind ref Any _ _ _ (Spares-gets ref Any _ (λ a. tt)) λ initial _.
        Spares-bind ref Any _ _ _ (Spares-gets ref Any _ (λ a. tt)) λ handler _.
          Spares-bind ref (λ a. a ≢ ref) _ _ _ (Spares-alloc ref _)
            λ cfg ne.
              Spares-bind ref Any _ _ _
                (Spares-with_error_code ref Any code_kube _
                  (Spares-act_at ref Any cfg _ ne (λ a. tt)))
                λ done _. Spares-pure ref _ cfg ne

  pub detached-Spares : (cfg : ℕ) → Spares ref (λ a. a ≢ ref) (detached_configuration sdk cfg)
  unfolding detached_configuration
  detached-Spares cfg =
      Spares-bind ref Any _ _ _ (Spares-deref_configuration ref cfg) λ shared _. Spares-alloc ref _

  -- forNamespace of another namespace makes a new configuration.
  pub for_namespace-Spares :
      (c : Config) (namespace : String)
      → str_eq namespace c.namespace ≡ false
      → Spares ref (λ a. a ≢ ref) (for_namespace sdk c namespace)
  unfolding for_namespace
  for_namespace-Spares c namespace other =
      rw other (new_action_configuration-Spares c.opts namespace)

  -- In any case it hands out the shared one or a new one, and changes no cell.
  pub for_namespace-keeps :
      (c : Config) (namespace : String) → Spares ref Any (for_namespace sdk c namespace)
  unfolding for_namespace
  for_namespace-keeps c namespace = elim (Bool-cases (str_eq namespace c.namespace)) [
    | inl same ↦ rw same (Spares-pure ref Any c.cfg tt)
    | inr other ↦ rw other (Spares-Any ref _ _ (new_action_configuration-Spares c.opts namespace))
  ]

module _ (sdk : Sdk) (cfg : ℕ) (shared : Configuration sdk.types) (p : Process sdk.types) where
  copied : Configuration sdk.types
  copied = record (sdk.new_configuration shared.logger) {
    rest_client_getter = shared.rest_client_getter;
    releases = shared.releases;
    kube_client = shared.kube_client;
    registry_client = shared.registry_client;
    capabilities = shared.capabilities;
    custom_template_funcs = shared.custom_template_funcs;
    hook_output_func = shared.hook_output_func;
  }

  detached_run :
      lookup cfg p.configurations ≡ some shared
      → detached_configuration sdk cfg p ≡ (
        returns p.next_ref,
        record p {
          configurations = insert p.next_ref copied p.configurations;
          next_ref = suc p.next_ref;
        },
      )
  unfolding detached_configuration alloc_configuration copied
  detached_run e =
      bind-returns (deref_configuration cfg) _ p p shared (unfold deref_configuration in rw (e, at))

-- A detached copy is a new configuration with the same clients, storage, capabilities, template
-- functions and hook output as the shared one, which stays as it is.
pub detached_shares :
    (sdk : Sdk) (cfg : ℕ) (shared : Configuration sdk.types) (p : Process sdk.types)
    → lookup cfg p.configurations ≡ some shared
    → cfg < p.next_ref
    → let (r, q) = detached_configuration sdk cfg p in
      (r ≡ returns p.next_ref)
      × (lookup cfg q.configurations ≡ some shared)
      × (copy : Configuration sdk.types) × (lookup p.next_ref q.configurations ≡ some copy)
      × (copy.rest_client_getter ≡ shared.rest_client_getter)
      × (copy.releases ≡ shared.releases)
      × (copy.kube_client ≡ shared.kube_client)
      × (copy.registry_client ≡ shared.registry_client)
      × (copy.capabilities ≡ shared.capabilities)
      × (copy.custom_template_funcs ≡ shared.custom_template_funcs)
      × (copy.hook_output_func ≡ shared.hook_output_func)
unfolding copied
detached_shares sdk cfg shared p e h = rw (detached_run sdk cfg shared p e) (
  refl,
  rw lookup-insert (ground arith),
  copied sdk cfg shared p,
  rw lookup-insert (ground arith),
  refl,
  refl,
  refl,
  refl,
  refl,
  refl,
  refl,
)
