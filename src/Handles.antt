-- ===== src/Handles.antt =====
-- internal/handles/handles.go: the registry between C callers and Go objects. Every method holds
-- the registry's mutex for its whole body, so it is one step of a run, and the calls of several
-- threads are a list of steps in the order in which they take the lock. `next_id` is a uint64.
pub mod Invariant
pub mod Lifetime
pub mod Counting
pub mod Refinement
pub mod Draining
use Prim.Native.String.{◌++◌}
use helm_c_sdk.Base.{
  ℕ, ◌+◌, ◌%◌, ◌^◌, Bool, true, false, Option, none, some, String, List, [], ◌∷◌, length, ◌==◌, not,
  if◌then◌else◌,
}
use helm_c_sdk.Base.Assoc.{Assoc, lookup, insert, erase}
use helm_c_sdk.Base.Text.{decimal}
use helm_c_sdk.Errors.{Err, new_error, code_invalid_handle, code_wrong_handle_type}
use helm_c_sdk.Result.{Result, ok, err}

-- `type Type uint32`
abbrev pub HandleType : Type 0
HandleType = ℕ

abbrev pub type_invalid : HandleType
type_invalid = 0

abbrev pub type_chart : HandleType
type_chart = 1

abbrev pub type_config : HandleType
type_config = 2

abbrev pub type_registry_client : HandleType
type_registry_client = 3

abbrev pub type_context : HandleType
type_context = 4

-- Type.String, with the map typeNames written out
unfoldable pub type_name : HandleType → String
type_name t =
    if t == type_invalid
    then "invalid"
    else if t == type_chart
    then "chart"
    else if t == type_config
    then "config"
    else if t == type_registry_client
    then "registry-client"
    else if t == type_context
    then "context"
    else "type(" ++ (decimal t ++ ")")

unfoldable pub err_invalid_handle : ℕ → Err
err_invalid_handle id =
    new_error code_invalid_handle ("invalid or already-freed handle " ++ decimal id)

unfoldable pub err_wrong_type : ℕ → HandleType → HandleType → Err
err_wrong_type id got want = new_error code_wrong_handle_type (
    "handle "
    ++ (decimal id ++ (" holds a " ++ (type_name got ++ (", want a " ++ type_name want)))))

pub record Entry (A : Type 0) : Type 0 where
  pub typ : HandleType
  pub obj : A

pub record Registry (A : Type 0) : Type 0 where
  pub next_id : ℕ
  pub entries : Assoc (Entry A)

abbrev pub u64_mod : ℕ
u64_mod = 2 ^ 64

module _ {A : Type 0} where
  -- NewRegistry
  abbrev pub new_registry : Registry A
  new_registry = record { next_id = 0; entries = [] }

  -- Put: `r.nextID++` wraps
  unfoldable pub put : HandleType → A → Registry A → ℕ × Registry A
  put t obj r =
      let id = (r.next_id + 1) % u64_mod in
      (id, record { next_id = id; entries = insert id (record { typ = t; obj = obj }) r.entries })

  -- Get
  unfoldable pub get : ℕ → HandleType → Registry A → Result A
  get id t r = elim (lookup id r.entries) [
    | none ↦ err (err_invalid_handle id)
    | some e ↦ if not (e.typ == t) then err (err_wrong_type id e.typ t) else ok e.obj
  ]

  -- Free: the error, and the registry afterwards
  unfoldable pub free : ℕ → Registry A → Option Err × Registry A
  free id r = elim (lookup id r.entries) [
    | none ↦ (some (err_invalid_handle id), r)
    | some e ↦ (none, record r { entries = erase id r.entries })
  ]

  -- FreeTyped
  unfoldable pub free_typed : ℕ → HandleType → Registry A → Option Err × Registry A
  free_typed id t r = elim (lookup id r.entries) [
    | none ↦ (some (err_invalid_handle id), r)
    | some e ↦
        if not (e.typ == t)
        then (some (err_wrong_type id e.typ t), r)
        else (none, record r { entries = erase id r.entries })
  ]

  -- Count
  unfoldable pub count : Registry A → ℕ
  count r = length r.entries

-- One locked call of a thread.
pub data Call (A : Type 0) : Type 0 where
  puts : HandleType → A → Call A
  gets : ℕ → HandleType → Call A
  frees : ℕ → Call A
  frees_typed : ℕ → HandleType → Call A
  counts : Call A

module _ {A : Type 0} where
  unfoldable pub step : Call A → Registry A → Registry A
  step (puts t obj) r = (put t obj r).1
  step (gets id t) r = r
  step (frees id) r = (free id r).1
  step (frees_typed id t) r = (free_typed id t r).1
  step counts r = r

  unfoldable pub run : List (Call A) → Registry A → Registry A
  run [] r = r
  run (c ∷ cs) r = run cs (step c r)

  -- How many of the calls are Put.
  abbrev pub puts_in : List (Call A) → ℕ
  puts_in [] = 0
  puts_in (puts t obj ∷ cs) = puts_in cs + 1
  puts_in (_ ∷ cs) = puts_in cs
