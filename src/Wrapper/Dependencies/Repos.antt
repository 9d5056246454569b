-- ===== src/Wrapper/Dependencies/Repos.antt =====
-- writeRepoConfig of pkg/wrapper/dependency.go: the repositories that the private repositories.yaml
-- registers for the declared dependencies.
use Prim.Native.String.{◌++◌}
use helm_c_sdk.Base.{
  ℕ, ◌+◌, ◌≡◌, Bool, true, false, not, ◌||◌, String, List, [], ◌∷◌, arith, any, str_eq, eq_iff,
  if◌then◌else◌, Bool-cases, inl, inr,
}
use helm_c_sdk.Base.Text.{codes, has_prefix, decimal}
use helm_c_sdk.Options.Dependency.{DependencyOptions}
use helm_c_sdk.Sdk.Structs.{Dependency}
use helm_c_sdk.Sdk.Actions.{RepoEntry}

-- strings.HasPrefix(url, "http://") || strings.HasPrefix(url, "https://")
unfoldable pub is_http : String → Bool
is_http url = has_prefix (codes url) (codes "http://") || has_prefix (codes url) (codes "https://")

-- seen[url]
abbrev pub seen_in : String → List String → Bool
seen_in url seen = any (λ s. str_eq s url) seen

entry_for : DependencyOptions → ℕ → String → RepoEntry
entry_for opts i url = record {
  name = "helm-c-dep-" ++ decimal i;
  url = url;
  username = opts.username;
  password = opts.password;
  cert_file = opts.cert_file;
  key_file = opts.key_file;
  ca_file = opts.ca_file;
  insecure_skip_tls_verify = opts.insecure;
  pass_credentials_all = false;
}

-- The loop, from the dependency number `i` on.
unfoldable pub entries_from : DependencyOptions → ℕ → List String → List Dependency → List RepoEntry
unfolding entry_for
entries_from opts i seen [] = []
entries_from opts i seen (d ∷ ds) =
    let skipped = entries_from opts (i + 1) seen ds in
    let added =
      entry_for opts i d.repository ∷ entries_from opts (i + 1) (d.repository ∷ seen) ds in
    if not (is_http d.repository)
    then skipped
    else if seen_in d.repository seen
    then skipped
    else added

unfoldable pub repo_entries : DependencyOptions → List Dependency → List RepoEntry
unfolding entries_from
repo_entries opts ds = entries_from opts 0 [] ds

abbrev pub registers : String → List RepoEntry → Bool
registers url es = any (λ e. str_eq e.url url) es

-- No two entries have one URL, and each URL is one of HTTP that was not seen before.
abbrev pub FreshUrls : List String → List RepoEntry → Type 0
FreshUrls seen [] = Unit {0}
FreshUrls seen (e ∷ es) =
    (is_http e.url ≡ true) × (seen_in e.url seen ≡ false) × FreshUrls (e.url ∷ seen) es

entries_from-FreshUrls :
    (opts : DependencyOptions) (i : ℕ) (seen : List String) (ds : List Dependency)
    → FreshUrls seen (entries_from opts i seen ds)
unfolding entries_from
entries_from-FreshUrls opts i seen [] = tt
entries_from-FreshUrls opts i seen (d ∷ ds) = elim (Bool-cases (is_http d.repository)) [
  | inr other ↦ rw other (entries_from-FreshUrls opts (i + 1) seen ds)
  | inl http ↦ elim (Bool-cases (seen_in d.repository seen)) [
    | inl old ↦ rw (http, old) (entries_from-FreshUrls opts (i + 1) seen ds)
    | inr new ↦
        rw (http, new) (http, new, entries_from-FreshUrls opts (i + 1) (d.repository ∷ seen) ds)
  ]
]

-- Every HTTP repository that a dependency declares is seen or registered.
covered :
    (opts : DependencyOptions) (i : ℕ) (seen : List String) (ds : List Dependency) (url : String)
    → is_http url ≡ true
    → any (λ d. str_eq d.repository url) ds ≡ true
    → (seen_in url seen || registers url (entries_from opts i seen ds)) ≡ true
unfolding entries_from
covered opts i seen [] url http h = cc
covered opts i seen (d ∷ ds) url http h = ground (
  arith,
  eq_iff d.repository url,
  covered opts (i + 1) seen ds url http,
  covered opts (i + 1) (d.repository ∷ seen) ds url http,
)

-- The private repositories.yaml registers an HTTP repository exactly once, and registers each one
-- that a declared dependency points at. It registers nothing that is not HTTP.
pub repo_entries_cover :
    (opts : DependencyOptions) (ds : List Dependency) (url : String)
    → is_http url ≡ true
    → any (λ d. str_eq d.repository url) ds ≡ true
    → FreshUrls [] (repo_entries opts ds) × (registers url (repo_entries opts ds) ≡ true)
unfolding repo_entries
repo_entries_cover opts ds url http h =
    (entries_from-FreshUrls opts 0 [] ds, covered opts 0 [] ds url http h)
