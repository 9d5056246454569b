-- ===== src/Wrapper/Clients/Remote/Frame.antt =====
-- pkg/wrapper/registry.go and PushChart: what the calls of a registry respect.
use helm_c_sdk.Base.{Option, String}
use helm_c_sdk.Options.Client.{LoginOptions}
use helm_c_sdk.Options.Transfer.{PushOptions}
use helm_c_sdk.Sdk.{Sdk}
use helm_c_sdk.Process.{Object}
use helm_c_sdk.Process.Respects.{Frame, Respects, returned, lifted, looked, outside_or, bound}
use helm_c_sdk.Wrapper.Clients.Frame.{resolve_client-Respects}
use helm_c_sdk.Wrapper.Clients.Remote.{
  registry_login, registry_logout, registry_tags, registry_resolve, push_chart,
}

module _ (sdk : Sdk) (F : Frame sdk.types) where
  open sdk use {types}

  pub login-Respects :
      (obj : Option (Object types)) (host username password : String) (opts : LoginOptions)
      → Respects F (registry_login sdk obj host username password opts)
  unfolding registry_login
  login-Respects obj host username password opts = search (bound, lifted, outside_or)

  pub logout-Respects :
      (obj : Option (Object types)) (host : String) → Respects F (registry_logout sdk obj host)
  unfolding registry_logout
  logout-Respects obj host = search (bound, lifted, outside_or)

  pub tags-Respects :
      (obj : Option (Object types)) (ref : String) → Respects F (registry_tags sdk obj ref)
  unfolding registry_tags
  tags-Respects obj ref = search (bound, lifted, outside_or, returned)

  pub resolve-Respects :
      (obj : Option (Object types)) (ref : String) → Respects F (registry_resolve sdk obj ref)
  unfolding registry_resolve
  resolve-Respects obj ref = search (bound, lifted, outside_or, returned)

  pub push-Respects :
      (obj : Option (Object types)) (path remote : String) (opts : PushOptions)
      → Respects F (push_chart sdk obj path remote opts)
  unfolding push_chart
  push-Respects obj path remote opts =
      search (bound, looked, outside_or, returned, resolve_client-Respects) depth 16
