-- ===== src/Wrapper/Strategies/Laws.antt =====
-- pkg/wrapper/actions.go: what the accepted strategies are.
use helm_c_sdk.Base.{◌≡◌, ◌≢◌, ◌⊎◌, true, false, none, some, String, arith, eq_iff}
use helm_c_sdk.Errors.{Err, from_error, code_invalid_arg, new_error}
use helm_c_sdk.Result.{ok, err}
use helm_c_sdk.Wrapper.Strategies.{
  dry_run_none, dry_run_client, dry_run_server, parse_dry_run, parse_bool, interacts_with_server,
}

-- The SDK sees no other strategy than "none", "client" and "server". Of these only "client" is kept
-- from the API server, and it is reached by the text "client" or by a Boolean text for true alone.
pub fakes_only_on_request :
    (s r : String)
    → parse_dry_run s ≡ ok r
    → interacts_with_server r ≡ false
    → (r ≡ dry_run_client) × ((s ≡ dry_run_client) ⊎ (parse_bool s ≡ some true))
unfolding parse_dry_run interacts_with_server
fakes_only_on_request s r h off = ground (
  arith,
  eq_iff s "",
  eq_iff s "none",
  eq_iff s "client",
  eq_iff s "server",
  eq_iff r "none",
  eq_iff r "server",
)

-- A text that is refused is refused with the invalid-argument code, and it is neither empty, nor a
-- strategy, nor a Boolean.
pub parse_dry_run_refuses :
    (s : String) (e : Err)
    → parse_dry_run s ≡ err e
    → (from_error (some e) ≡ code_invalid_arg)
      × (parse_bool s ≡ none)
      × (s ≢ "")
      × (s ≢ dry_run_none)
      × (s ≢ dry_run_client)
      × (s ≢ dry_run_server)
unfolding parse_dry_run from_error new_error
parse_dry_run_refuses s e h =
    ground (arith, eq_iff s "", eq_iff s "none", eq_iff s "client", eq_iff s "server")
