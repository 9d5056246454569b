-- ===== src/Options/Shadowing.antt =====
-- pkg/wrapper/chart.go: ShowOptions has a field `devel` of its own beside the one of the embedded
-- ChartRefOptions, and encoding/json gives the key to the outer field alone.
use helm_c_sdk.Base.{◌≡◌, refl, false, Bool, String}
use helm_c_sdk.Result.{ok}
use helm_c_sdk.Json.{Document}
use helm_c_sdk.Json.Decode.{Slot, string_slot, bool_slot, embed_slot}
use helm_c_sdk.Json.Keeps.{
  TableKeeps, SlotKeeps, decode_options-Keeps, string_slot-Keeps, bool_slot-Keeps, embed_slot-Keeps,
}
use helm_c_sdk.Options.ChartRef.{ChartRefOptions}
use helm_c_sdk.Options.Show.{ShowOptions, show_options_fields, no_show_options, parse_show_options}

abbrev InnerOff : ShowOptions → Type 0
InnerOff o = o.chart_ref_options.devel ≡ false

inner :
    (s : Slot ChartRefOptions)
    → SlotKeeps (λ c. c.devel ≡ false) s
    → SlotKeeps InnerOff
        (embed_slot (λ o. o.chart_ref_options) (λ t o. record o { chart_ref_options = t }) s)
inner s kept = embed_slot-Keeps (λ c. c.devel) _ _ s (λ t o. refl) kept

inner_string :
    (k : String) (put : String → ChartRefOptions → ChartRefOptions)
    → ((v : String) (c : ChartRefOptions) → (put v c).devel ≡ c.devel)
    → SlotKeeps InnerOff (
        embed_slot
          (λ o. o.chart_ref_options)
          (λ t o. record o { chart_ref_options = t })
          (string_slot k put))
inner_string k put same = inner (string_slot k put) (string_slot-Keeps (λ c. c.devel) k put same)

inner_bool :
    (k : String) (put : Bool → ChartRefOptions → ChartRefOptions)
    → ((v : Bool) (c : ChartRefOptions) → (put v c).devel ≡ c.devel)
    → SlotKeeps InnerOff (
        embed_slot
          (λ o. o.chart_ref_options)
          (λ t o. record o { chart_ref_options = t })
          (bool_slot k put))
inner_bool k put same = inner (bool_slot k put) (bool_slot-Keeps (λ c. c.devel) k put same)

table-InnerOff : TableKeeps InnerOff show_options_fields
table-InnerOff = (
  string_slot-Keeps (λ o. o.chart_ref_options.devel) "format" _ (λ v o. refl),
  (
    bool_slot-Keeps (λ o. o.chart_ref_options.devel) "devel" _ (λ v o. refl),
    (
      inner_string "chart_repo_url" _ (λ v o. refl),
      (
        inner_string "chart_version" _ (λ v o. refl),
        (
          inner_bool "plain_http" _ (λ v o. refl),
          (
            inner_string "username" _ (λ v o. refl),
            (
              inner_string "password" _ (λ v o. refl),
              (
                inner_string "ca_file" _ (λ v o. refl),
                (
                  inner_string "cert_file" _ (λ v o. refl),
                  (
                    inner_string "key_file" _ (λ v o. refl),
                    (
                      inner_bool "insecure_skip_tls_verify" _ (λ v o. refl),
                      (
                        inner_bool "verify" _ (λ v o. refl),
                        (
                          inner_string "keyring" _ (λ v o. refl),
                          (
                            inner_bool "pass_credentials_all" _ (λ v o. refl),
                            (inner_bool "dependency_update" _ (λ v o. refl), tt),
                          ),
                        ),
                      ),
                    ),
                  ),
                ),
              ),
            ),
          ),
        ),
      ),
    ),
  ),
)

-- Whatever the caller writes, the options that steer the download of a chart for helm_show have
-- `devel` off: the key "devel" only reaches the outer field.
pub show_devel_never_reaches_download :
    (d : Document) (o : ShowOptions)
    → parse_show_options d ≡ ok o
    → o.chart_ref_options.devel ≡ false
unfolding parse_show_options
show_devel_never_reaches_download d o e =
    decode_options-Keeps InnerOff show_options_fields no_show_options "show" d o table-InnerOff refl
      e
