-- ===== src/Wrapper/Dependencies/Status/Laws.antt =====
-- pkg/wrapper/dependency.go: what a status says of the files and of the chart, and what a list of
-- statuses covers.
use helm_c_sdk.Base.{◌≡◌, refl, ap, true, false, ◌⊎◌, String, List, [], ◌∷◌, map, str_eq}
use helm_c_sdk.Errors.{Err}
use helm_c_sdk.Result.{Result, ok, err}
use helm_c_sdk.Go.{returns, fails, Go}
use helm_c_sdk.Go.Ensures.{Ensures, Ensures-pure, Ensures-bind, Ensures-then}
use helm_c_sdk.Sdk.{Sdk}
use helm_c_sdk.Sdk.Structs.{Dependency}
use helm_c_sdk.Wrapper.Charts.{load_chart}
use helm_c_sdk.Wrapper.Dependencies.Status.{DependencyEntry, versioned_archives, dependency_entries}

abbrev entry_head : DependencyEntry → String × String × String
entry_head e = (e.name, e.version, e.repository)

abbrev declared_head : Dependency → String × String × String
declared_head d = (d.name, d.version, d.repository)

abbrev pub Lists : List Dependency → List DependencyEntry → Type 0
Lists ds es = map entry_head es ≡ map declared_head ds

-- What a computation did that gave a value or an error.
abbrev pub Ran : {S A : Type 0} → Go S A → Result A → Type 0
Ran {S = S} m (ok a) = (s s' : S) × (m s ≡ (returns a, s'))
Ran {S = S} m (err e) = (s s' : S) × (m s ≡ (fails e, s'))

module _ (sdk : Sdk) where
  open sdk use {types, Chart}

  -- The version `have` is what the declaration `want` asks for.
  abbrev pub Meets : String → String → Type 0
  Meets have want =
      (have ≡ want)
      ⊎ ((c : types.Constraint) × (v : types.Version) × (sdk.new_constraint want ≡ ok c)
          × (sdk.new_version have ≡ ok v)
          × (sdk.satisfies c v ≡ true))

  -- What is wrong with the version `have`.
  pub data Fault (have want : String) : String → Type 0 where
    bad_constraint : (e : Err) → sdk.new_constraint want ≡ err e → Fault have want "invalid version"
    bad_version : (e : Err) → sdk.new_version have ≡ err e → Fault have want "invalid version"
    not_satisfied :
        (c : types.Constraint) (v : types.Version)
        → sdk.new_constraint want ≡ ok c
        → sdk.new_version have ≡ ok v
        → sdk.satisfies c v ≡ false
        → Fault have want "wrong version"

  abbrev pub Among : Chart → List Chart → Type 0
  Among sub [] = ⊥
  Among sub (c ∷ cs) = (c ≡ sub) ⊎ Among sub cs

  abbrev pub NoneNamed : String → List Chart → Type 0
  NoneNamed name [] = Unit {0}
  NoneNamed name (c ∷ cs) = (str_eq (sdk.chart_name c) name ≡ false) × NoneNamed name cs

  -- What a status says of a declared dependency, of the files and of the chart that declares it.
  pub data Means (dep : Dependency) (parent : Chart) : String → Type 0 where
    packaged :
        (archive : String) (c : Chart)
        → Ran (load_chart sdk archive) (ok c)
        → sdk.chart_name c ≡ dep.name
        → Meets (sdk.chart_version c) dep.version
        → Means dep parent "ok"
    misnamed :
        (archive : String) (c : Chart)
        → Ran (load_chart sdk archive) (ok c)
        → str_eq (sdk.chart_name c) dep.name ≡ false
        → Means dep parent "misnamed"
    corrupt :
        (archive : String) (e : Err)
        → Ran (load_chart sdk archive) (err e)
        → Means dep parent "corrupt"
    packaged_fault :
        (archive : String) (c : Chart) (s : String)
        → Ran (load_chart sdk archive) (ok c)
        → sdk.chart_name c ≡ dep.name
        → Fault (sdk.chart_version c) dep.version s
        → Means dep parent s
    several :
        (a b : String) (found rest : List String)
        → versioned_archives sdk found dep.name ≡ a ∷ b ∷ rest
        → Means dep parent "too many matches"
    no_glob : (e : Err) → Means dep parent "bad pattern"
    unpacked :
        (sub : Chart)
        → Among sub (sdk.subcharts parent)
        → sdk.chart_name sub ≡ dep.name
        → Meets (sdk.chart_version sub) dep.version
        → Means dep parent "unpacked"
    unpacked_fault :
        (sub : Chart) (s : String)
        → Among sub (sdk.subcharts parent)
        → sdk.chart_name sub ≡ dep.name
        → Fault (sdk.chart_version sub) dep.version s
        → Means dep parent s
    missing : NoneNamed dep.name (sdk.subcharts parent) → Means dep parent "missing"

  -- A version has no fault, or it has one, whose text is not empty.
  abbrev Judged : String → String → String → Type 0
  Judged have want s = ((s ≡ "") × Meets have want) ⊎ ((str_eq s "" ≡ false) × Fault have want s)

  module _ (dep : Dependency) (parent : Chart) where
    -- A status that leaves the question open, or one that settles it.
    abbrev Open : String → Type 0
    Open s = (s ≡ "") ⊎ ((str_eq s "" ≡ false) × Means dep parent s)

  -- A list that the loop of DependencyList returns has one entry for each declared dependency, in
  -- their order, with the declared name, version and repository.
  pub dependency_entries_complete :
      (dir : String) (parent : sdk.Chart) (ds : List Dependency)
      → Ensures (Lists ds) (dependency_entries sdk dir parent ds)
  unfolding dependency_entries
  dependency_entries_complete dir parent [] = Ensures-pure (Lists []) [] refl
  dependency_entries_complete dir parent (d ∷ ds) = Ensures-then (Lists (d ∷ ds)) _ _ λ s.
      Ensures-bind (Lists (d ∷ ds)) (Lists ds) _ _ (dependency_entries_complete dir parent ds)
        λ es e. Ensures-pure (Lists (d ∷ ds)) _ (ap (λ xs. declared_head d ∷ xs) e)
