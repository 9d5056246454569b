-- ===== src/Wrapper/Config/Lifecycle.antt =====
-- pkg/wrapper/config.go: the private kubeconfig file from NewConfig to Close.
use helm_c_sdk.Base.{
  ℕ, ◌≡◌, refl, ◌≢◌, false, none, some, String, arith, str_eq, if◌then◌else◌, eq_iff, Option-cases,
  Bool-cases, inl, inr,
}
use helm_c_sdk.Base.Assoc.{Assoc, lookup, insert, lookup-insert}
use helm_c_sdk.Result.{Result, ok, err}
use helm_c_sdk.Go.{Outcome, returns, fails, fail, attempt, modify, ◌>>=◌}
use helm_c_sdk.Go.Laws.{bind-returns}
use helm_c_sdk.Options.Config.{ConfigOptions}
use helm_c_sdk.Sdk.{Sdk}
use helm_c_sdk.Sdk.Structs.{Types, Outside}
use helm_c_sdk.Process.{Config, Process}
use helm_c_sdk.Process.Heap.{alloc_config}
use helm_c_sdk.Wrapper.Settings.{remove_best_effort}
use helm_c_sdk.Wrapper.Config.{
  write_temp_kubeconfig, new_action_configuration, default_namespace, finish_config, config_from,
  config_from_content, new_config, close_at, close,
}

-- The name of the file that Close would remove: what the *Config records, with "" for none.
abbrev pub pending_file : {t : Types} → ℕ → Process t → String
pending_file ref p = elim (lookup ref p.configs) [ none ↦ "" | some c ↦ c.temp_kubeconfig ]

closed_lem :
    (sdk : Sdk) (ref : ℕ) (c : Config) (p : Process sdk.types)
    → lookup ref p.configs ≡ some c
    → c.temp_kubeconfig ≡ ""
    → close sdk ref p ≡ p
unfolding close close_at
closed_lem sdk ref c p e done = rw (e, close) (rw done refl)

abbrev after_close : (sdk : Sdk) → ℕ → Config → Process sdk.types → Process sdk.types
after_close sdk ref c p =
    let q = remove_best_effort sdk c.temp_kubeconfig p in
    record q { configs = insert ref (record c { temp_kubeconfig = "" }) q.configs }

close_open :
    (sdk : Sdk) (ref : ℕ) (c : Config) (p : Process sdk.types)
    → lookup ref p.configs ≡ some c
    → str_eq c.temp_kubeconfig "" ≡ false
    → close sdk ref p ≡ after_close sdk ref c p
unfolding close close_at
close_open sdk ref c p e temp = rw (e, close) (rw temp refl)

after_close-lookup :
    (sdk : Sdk) (ref : ℕ) (c : Config) (p : Process sdk.types)
    → lookup ref (after_close sdk ref c p).configs ≡ some (record c { temp_kubeconfig = "" })
after_close-lookup sdk ref c p = rw lookup-insert (ground arith)

-- The outside world once the file of that name, if there is one, is removed.
abbrev pub without_file : (sdk : Sdk) → String → Outside sdk.types → Outside sdk.types
without_file sdk path o = if str_eq path "" then o else sdk.remove_all path o

-- Close removes the file that the *Config records, if it records one, and does nothing else to the
-- outside world; it clears the record, so that a second Close changes nothing at all.
pub close_once :
    (sdk : Sdk) (ref : ℕ) (p : Process sdk.types)
    → ((close sdk ref p).outside ≡ without_file sdk (pending_file ref p) p.outside)
      × (pending_file ref (close sdk ref p) ≡ "")
      × (close sdk ref (close sdk ref p) ≡ close sdk ref p)
close_once sdk ref p = elim (Option-cases (lookup ref p.configs)) [
  | inl gone ↦
      let same : close sdk ref p ≡ p = unfold close in rw (gone, close) refl in
      rw same (rw (gone, pending_file) refl, rw (gone, pending_file) refl, same)
  | inr (c, e) ↦ elim (Bool-cases (str_eq c.temp_kubeconfig "")) [
    | inl no_file ↦
        let bare = (eq_iff c.temp_kubeconfig "").0 no_file in
        let same = closed_lem sdk ref c p e bare in
        rw same (rw (e, pending_file) (rw bare refl), rw (e, pending_file) bare, same)
    | inr file ↦
        let there = after_close-lookup sdk ref c p in
        rw (close_open sdk ref c p e file) (
          rw (e, pending_file) (rw file refl),
          rw (there, pending_file) refl,
          closed_lem sdk ref (record c { temp_kubeconfig = "" }) (after_close sdk ref c p) there
              refl,
        )
  ]
]

abbrev pub file_options : ConfigOptions → String → ConfigOptions
file_options opts path = record opts { kubeconfig_content = ""; kubeconfig_path = path }

module _ (sdk : Sdk) (opts : ConfigOptions) (p q : Process sdk.types) (path : String) where
  new_config_content :
      opts.kubeconfig_path ≡ ""
      → opts.kubeconfig_content ≢ ""
      → write_temp_kubeconfig sdk opts.kubeconfig_content p ≡ (returns path, q)
      → new_config sdk opts p ≡ config_from sdk (file_options opts path) path q
  unfolding new_config config_from_content
  new_config_content no_path content written =
      let some_content : str_eq opts.kubeconfig_content "" ≡ false =
        ground (arith, eq_iff opts.kubeconfig_content "") in
      rw (no_path, some_content) (bind-returns _ _ p q path written)

-- What becomes of the file at `path`, by how the initialisation ended in the state `q'`.
abbrev pub Owned :
    (sdk : Sdk) → Result ℕ → String → Process sdk.types → Outcome ℕ × Process sdk.types → Type 0
Owned sdk (err e) path q' (r, p') = (r ≡ fails e) × (p' ≡ remove_best_effort sdk path q')
Owned sdk (ok cfg) path q' (r, p') =
    (r ≡ returns q'.next_ref) × (pending_file q'.next_ref p' ≡ path)

inserted : (ref : ℕ) (c : Config) (m : Assoc Config) → lookup ref (insert ref c m) ≡ some c
inserted ref c m = rw lookup-insert (ground arith)

finish_config-Owned :
    (sdk : Sdk) (opts : ConfigOptions) (namespace path : String) (r : Result ℕ)
    (q' : Process sdk.types)
    → path ≢ ""
    → Owned sdk r path q' (finish_config sdk opts namespace path r q')
unfolding finish_config alloc_config modify fail ◌>>=◌
finish_config-Owned sdk opts namespace path (err e) q' named =
    let there : str_eq path "" ≡ false = ground (arith, eq_iff path "") in (refl, rw there refl)
finish_config-Owned sdk opts namespace path (ok cfg) q' named =
    let c : Config = record {
      cfg = cfg;
      namespace = namespace;
      opts = opts;
      temp_kubeconfig = path;
    } in
    (refl, rw (inserted q'.next_ref c q'.configs, pending_file) refl)

-- Inline kubeconfig content never outlives a failure: once the private file is written, a failure to
-- initialise the configuration is reported as it is and the file is removed; a success records the
-- file in the new *Config, where Close finds it. The caller gave content, and no path.
pub inline_kubeconfig-Owned :
    (sdk : Sdk) (opts : ConfigOptions) (p q q' : Process sdk.types) (path : String) (r : Result ℕ)
    → opts.kubeconfig_path ≡ ""
    → opts.kubeconfig_content ≢ ""
    → path ≢ ""
    → write_temp_kubeconfig sdk opts.kubeconfig_content p ≡ (returns path, q)
    → attempt
        (new_action_configuration sdk
          (file_options opts path)
          (default_namespace sdk opts.namespace))
        q
      ≡ (returns r, q')
    → Owned sdk r path q' (new_config sdk opts p)
unfolding config_from
inline_kubeconfig-Owned sdk opts p q q' path r no_path content named written made =
    rw (new_config_content sdk opts p q path no_path content written) (
      rw (bind-returns _ _ q q' r made) (
        finish_config-Owned sdk (file_options opts path) (default_namespace sdk opts.namespace) path
          r q' named))
