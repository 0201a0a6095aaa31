-- ===== src/Routing/Registry/Names.antt =====
-- Which route a name of src/routing/registry.rs leads to.
use anthroxy.Prelude.{
  ℕ, zero, suc, ◌+◌, ◌≡◌, ◌∙◌, ap, refl, Bool, ◌||◌, Option, none, some, List, [], ◌∷◌,
  if◌then◌else◌, any, get_elem?, map, Text, text_eq, ok, arith, Bool-cases, Option-cases, inl, inr,
}
use anthroxy.Routing.Registry.{
  Route, Match, exact, alias, default_match, NameMap, get, Resolution, ModelConfig, route,
  insert_aliases, insert_from, from_config, at, by, lookup, or_default, resolve,
}

abbrev pub has_name : Text → Route → Bool
has_name name r = text_eq r.id name || any (λ a. text_eq a name) r.aliases

-- The last route in the order of the configuration that has the name.
abbrev pub last_named : Text → List Route → Option Route
last_named name [] = none
last_named name (r ∷ routes) = elim (last_named name routes) [
  | some later ↦ some later
  | none ↦ if has_name name r then some r else none
]

-- And its index.
abbrev last_index : Text → List Route → Option ℕ
last_index name [] = none
last_index name (r ∷ routes) = elim (last_index name routes) [
  | some later ↦ some (suc later)
  | none ↦ if has_name name r then some zero else none
]

get-insert_aliases :
    (name : Text) (index : ℕ) (aliases : List Text) (m : NameMap)
    → get name (insert_aliases index aliases m)
      ≡ (if any (λ a. text_eq a name) aliases then some index else get name m)
unfolding get insert_aliases
get-insert_aliases name index [] m = refl
get-insert_aliases name index (a ∷ aliases) m =
    ground (arith, get-insert_aliases name index aliases ((a, index) ∷ m))

abbrev shifted : ℕ → Option ℕ → Option ℕ → Option ℕ
shifted index none other = other
shifted index (some later) other = some (index + later)

get-insert_from :
    (name : Text) (index : ℕ) (routes : List Route) (m : NameMap)
    → get name (insert_from index routes m) ≡ shifted index (last_index name routes) (get name m)
unfolding get insert_from
get-insert_from name index [] m = refl
get-insert_from name index (r ∷ routes) m =
    let m' = insert_aliases index r.aliases ((r.id, index) ∷ m) in
    let later = get-insert_from name (index + 1) routes m' in
    let here = get-insert_aliases name index r.aliases ((r.id, index) ∷ m) in
    elim (Option-cases (last_index name routes)) [
      | inl e ↦ rw (e, has_name) (later ∙ (rw e here ∙ by_name))
      | inr (i, e) ↦ rw e (later ∙ rw e (ap some (omega arith)))
    ]
  where
    by_name :
        (if any (λ a. text_eq a name) r.aliases then some index else get name ((r.id, index) ∷ m))
        ≡ shifted index (if has_name name r then some zero else none) (get name m)
    by_name = elim (Bool-cases (any (λ a. text_eq a name) r.aliases)) [
      | inl e ↦ elim (Bool-cases (text_eq r.id name)) [
        | inl q ↦ rw (e, has_name, q) (ap some (omega arith))
        | inr q ↦ rw (e, has_name, q) (ap some (omega arith))
      ]
      | inr e ↦ elim (Bool-cases (text_eq r.id name)) [
        | inl q ↦ rw (e, has_name, q) (ap some (omega arith))
        | inr q ↦ rw (e, has_name, q) refl
      ]
    ]

last_index-none :
    (name : Text) (routes : List Route)
    → last_index name routes ≡ none
    → last_named name routes ≡ none
last_index-none name [] e = refl
last_index-none name (r ∷ routes) e = elim (Option-cases (last_index name routes)) [
  | inl q ↦ ground (arith, q, e, last_index-none name routes q)
  | inr (k, q) ↦ ground (arith, q, e)
]

last_named-index :
    (name : Text) (routes : List Route) (i : ℕ)
    → last_index name routes ≡ some i
    → (r : Route) × (last_named name routes ≡ some r) × (get_elem? routes i ≡ some r)
last_named-index name [] i e = let no : ⊥ = cc in elim no [ ]
last_named-index name (r ∷ routes) i e = elim (Option-cases (last_index name routes)) [
  | inr (k, q) ↦
      let (found, named, at_k) = last_named-index name routes k q in
      let next : suc k ≡ i = ground (arith, e, q) in (found, rw named refl, rw⁻¹ next at_k)
  | inl q ↦ elim (Bool-cases (has_name name r)) [
    | inl h ↦
        let first : zero ≡ i = ground (arith, e, q, h) in
        (r, rw (last_index-none name routes q, h) refl, rw⁻¹ first refl)
    | inr h ↦ let no : ⊥ = ground (arith, e, q, h) in elim no [ ]
  ]
]

-- Why a route matches a name that it has.
abbrev pub because : Text → Route → Match
because name r = if text_eq r.id name then exact else alias

abbrev pub resolution : (Route → Match) → Option Route → Option Resolution
resolution why none = none
resolution why (some r) = some (r, why r)

get-by_name :
    (name : Text) (models : List ModelConfig) (d : Option Text)
    → get name (from_config models d).by_name ≡ last_index name (map route models)
unfolding from_config get
get-by_name name models d =
    get-insert_from name 0 (map route models) [] ∙ as_is (last_index name (map route models))
  where
    as_is : (o : Option ℕ) → shifted 0 o (get name []) ≡ o
    as_is none = refl
    as_is (some i) = ap some (omega arith)

-- A name leads to the last route of the configuration that has it as id or alias, and matches
-- exactly when it is the id. No lookup is out of range.
pub lookup_lem :
    (models : List ModelConfig) (default_model : Option Text) (name : Text)
    → lookup (from_config models default_model) name
      ≡ ok (resolution (because name) (last_named name (map route models)))
unfolding lookup from_config
lookup_lem models d name = elim (Option-cases (last_index name (map route models))) [
  | inl e ↦
      rw (lookup, get-by_name name models d, e, last_index-none name (map route models) e) refl
  | inr (i, e) ↦
      let (r, named, at_i) = last_named-index name (map route models) i e in
      rw (lookup, get-by_name name models d, e, named) (found r i at_i)
]
  where
    found :
        (r : Route) (i : ℕ)
        → get_elem? (map route models) i ≡ some r
        → by (λ r. if text_eq r.id name then exact else alias) (at (from_config models d) i)
          ≡ ok (some (r, because name r))
    found r i e = rw (by, e) refl

-- What the default model is, once looked up.
abbrev pub default_route : Option Text → List Route → Option Route
default_route none routes = none
default_route (some name) routes = last_named name routes

abbrev pub first_of : Option Resolution → Option Resolution → Option Resolution
first_of (some found) other = some found
first_of none other = other

or_default_lem :
    (models : List ModelConfig) (d : Option Text)
    → or_default (from_config models d) (ok none)
      ≡ ok (resolution (λ r. default_match) (default_route d (map route models)))
unfolding from_config
or_default_lem models none = refl
or_default_lem models (some name) = elim (Option-cases (last_index name (map route models))) [
  | inl e ↦ rw (get-by_name name models none, e, last_index-none name (map route models) e) refl
  | inr (i, e) ↦
      let (r, named, at_i) = last_named-index name (map route models) i e in
      rw (get-by_name name models none, e, named, by, at_i) refl
]

-- A name that no route has goes to the route of the default model, and only such a name, and to none
-- when there is no default or its name is no route's.
pub resolve_lem :
    (models : List ModelConfig) (default_model : Option Text) (name : Text)
    → resolve (from_config models default_model) name
      ≡ ok (
          first_of
            (resolution (because name) (last_named name (map route models)))
            (resolution (λ r. default_match) (default_route default_model (map route models))))
unfolding resolve
resolve_lem models d name =
    rw (resolve, lookup_lem models d name) (by_found (last_named name (map route models)))
  where
    by_found :
        (o : Option Route)
        → or_default (from_config models d) (ok (resolution (because name) o))
          ≡ ok (
              first_of
                (resolution (because name) o)
                (resolution (λ r. default_match) (default_route d (map route models))))
    by_found none = or_default_lem models d
    by_found (some r) = refl
