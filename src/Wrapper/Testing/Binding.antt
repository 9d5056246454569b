-- ===== src/Wrapper/Testing/Binding.antt =====
-- SetConfigRegistryClient of pkg/wrapper/testing_action.go.
use helm_c_sdk.Base.{ℕ, ◌≡◌, ◌≢◌, refl, ◌∙◌, arith, Option, none, some}
use helm_c_sdk.Base.Assoc.{lookup, insert, lookup-insert}
use helm_c_sdk.Go.{returns, Go, lift, modify}
use helm_c_sdk.Go.Laws.{bind-returns}
use helm_c_sdk.Sdk.{Sdk}
use helm_c_sdk.Sdk.Structs.{Configuration}
use helm_c_sdk.Process.{Config, Object, Process}
use helm_c_sdk.Process.Heap.{deref_config, deref_configuration}
use helm_c_sdk.Wrapper.Config.{as_config}
use helm_c_sdk.Wrapper.Charts.{as_registry_client}
use helm_c_sdk.Wrapper.ChartRef.{client_object}
use helm_c_sdk.Wrapper.Releases.{with_config}
use helm_c_sdk.Wrapper.Testing.{bind_client, bind_object, set_config_registry_client}

with_config-ok :
    (sdk : Sdk) (ref : ℕ) (cfg : Config) (run : Config → Go (Process sdk.types) (Unit {0}))
    (p : Process sdk.types)
    → lookup ref p.configs ≡ some cfg
    → with_config sdk (some (Object.config ref)) run p ≡ run cfg p
unfolding with_config as_config lift deref_config
with_config-ok sdk ref cfg run p held =
    bind-returns _ _ p p ref refl ∙ bind-returns _ _ p p cfg (rw held refl)

bind_client-ok :
    (sdk : Sdk) (cfg : Config) (c : Configuration sdk.types) (client : Option sdk.Client)
    (p : Process sdk.types)
    → lookup cfg.cfg p.configurations ≡ some c
    → bind_client sdk cfg client p ≡ (
      returns tt,
      record p {
        configurations = insert cfg.cfg (record c { registry_client = client }) p.configurations;
      },
    )
unfolding bind_client deref_configuration modify
bind_client-ok sdk cfg c client p found = bind-returns _ _ p p c (rw found refl)

bind_object-ok :
    (sdk : Sdk) (cfg : Config) (client : Option sdk.Client) (p : Process sdk.types)
    → bind_object sdk (client_object sdk client) cfg p ≡ bind_client sdk cfg client p
unfolding bind_object lift as_registry_client
bind_object-ok sdk cfg none p = refl
bind_object-ok sdk cfg (some x) p = bind-returns _ _ p p x refl

-- Binding a client, or none, to a configuration succeeds; afterwards the SDK's configuration has that
-- client and is otherwise what it was, every other configuration is unchanged, and so are the handles
-- and the world outside. The handle's object is a configuration whose pointers resolve.
pub client_bound :
    (sdk : Sdk) (ref : ℕ) (cfg : Config) (c : Configuration sdk.types) (client : Option sdk.Client)
    (p : Process sdk.types)
    → lookup ref p.configs ≡ some cfg
    → lookup cfg.cfg p.configurations ≡ some c
    → let (r, q) =
        set_config_registry_client sdk (some (Object.config ref)) (client_object sdk client) p in
      (r ≡ returns tt)
      × (deref_configuration cfg.cfg q ≡ (returns (record c { registry_client = client }), q))
      × ((other : ℕ)
          → cfg.cfg ≢ other
          → lookup other q.configurations ≡ lookup other p.configurations)
      × (q.registry ≡ p.registry)
      × (q.outside ≡ p.outside)
unfolding set_config_registry_client deref_configuration
client_bound sdk ref cfg c client p held found =
    let run =
      with_config-ok sdk ref cfg (bind_object sdk (client_object sdk client)) p held
      ∙ (bind_object-ok sdk cfg client p ∙ bind_client-ok sdk cfg c client p found) in
    rw run (
      refl,
      rw lookup-insert (ground arith),
      (λ other ne. rw lookup-insert (ground arith)),
      refl,
      refl,
    )
