-- ===== src/Wrapper/Clients/Frame.antt =====
-- pkg/wrapper/distribution.go: the configurations while a client is chosen and a chart is pulled.
use helm_c_sdk.Base.{Bool, true, false, Option, none, some, String}
use helm_c_sdk.Errors.{code_registry}
use helm_c_sdk.Go.{Go}
use helm_c_sdk.Sdk.{Sdk}
use helm_c_sdk.Process.{Object, Process}
use helm_c_sdk.Process.Respects.{
  Frame, Respects, finished, returned, lifted, looked, outside_or, bound,
}
use helm_c_sdk.Options.Client.{RegistryClientOptions}
use helm_c_sdk.Options.Transfer.{PullOptions}
use helm_c_sdk.Wrapper.Settings.Frame.{temp-Respects}
use helm_c_sdk.Wrapper.Clients.{
  new_registry_client, some_client, default_client_for, resolve_client, pull_with, pull_chart,
}

module _ (sdk : Sdk) (F : Frame sdk.types) where
  open sdk use {types, Client}

  pub client-Respects : (opts : RegistryClientOptions) → Respects F (new_registry_client sdk opts)
  unfolding new_registry_client
  client-Respects opts = outside_or F code_registry _

  some_client-Respects :
      (m : Go (Process types) Client) → Respects F m → Respects F (some_client sdk m)
  unfolding some_client
  some_client-Respects m k = search (bound, returned, k)

  pub default_client-Respects :
      (c : Option Client) (needed plain : Bool) → Respects F (default_client_for sdk c needed plain)
  unfolding default_client_for
  default_client-Respects (some c) needed plain = returned F _
  default_client-Respects none false plain = returned F _
  default_client-Respects none true plain = some_client-Respects _ (client-Respects _)

  pub resolve_client-Respects :
      (obj : Option (Object types)) (needed plain : Bool)
      → Respects F (resolve_client sdk obj needed plain)
  unfolding resolve_client
  resolve_client-Respects none needed plain = default_client-Respects none needed plain
  resolve_client-Respects (some obj) needed plain =
      bound F _ _ (lifted F _) λ c. default_client-Respects (some c) needed plain

  pull_with-Respects :
      (client : Option Client) (scratch chart_ref : String) (opts : PullOptions)
      → Respects F (pull_with sdk client scratch chart_ref opts)
  unfolding pull_with
  pull_with-Respects client scratch chart_ref opts = search (bound, returned, looked, outside_or)

  pub pull_chart-Respects :
      (obj : Option (Object types)) (chart_ref : String) (opts : PullOptions)
      → Respects F (pull_chart sdk obj chart_ref opts)
  unfolding pull_chart
  pull_chart-Respects obj chart_ref opts = bound F _ _ (resolve_client-Respects obj _ _) λ client.
      bound F _ _ (temp-Respects sdk F "pull") λ scratch.
        finished F _ (sdk.remove_all scratch) (pull_with-Respects client scratch chart_ref opts)
