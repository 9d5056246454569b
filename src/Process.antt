-- ===== src/Process.antt =====
-- The state of the process: the handle registry of capi, the Go objects behind pointers, the log
-- handler of pkg/wrapper/logging.go, and the outside world. A *action.Configuration and a
-- *wrapper.Config are addresses into the two heaps; `next_ref` is the next free address.
pub mod Heap
pub mod Frame
pub mod Respects
use helm_c_sdk.Base.{ℕ, suc, String, Option, none, some, List, [], ◌∷◌}
use helm_c_sdk.Base.Assoc.{Assoc, lookup, insert}
use helm_c_sdk.Errors.{Err, new_error, code_wrong_handle_type}
use helm_c_sdk.Result.{Result, ok, err}
use helm_c_sdk.Go.{Outcome, returns, fails, panics, Go, ◌>>=◌}
use helm_c_sdk.Handles.{Registry}
use helm_c_sdk.Options.Config.{ConfigOptions}
use helm_c_sdk.Sdk.{Sdk}
use helm_c_sdk.Sdk.Structs.{Types, Configuration, Outside}

-- wrapper.Config
pub record Config : Type 0 where
  pub cfg : ℕ
  pub namespace : String
  pub opts : ConfigOptions
  pub temp_kubeconfig : String

-- What the registry holds: `any`, as one of the four types that the program stores.
pub data Object (t : Types) : Type 0 where
  chart : t.Chart → Object t
  config : ℕ → Object t
  client : t.Client → Object t
  -- *ctxEntry, by the number of its context
  context : ℕ → Object t

pub record Process (t : Types) : Type 0 where
  pub registry : Registry (Object t)
  pub configurations : Assoc (Configuration t)
  pub configs : Assoc Config
  pub next_ref : ℕ
  pub log_handler : t.Handler
  pub outside : Outside t
