-- ===== src/Routing/Registry.antt =====
-- src/routing/registry.rs: the table of routes. A route holds the name of its backend; where a
-- system message goes on it is left out. A `HashMap` is the list of what was inserted, the latest
-- first.
pub mod Names
mod Tests
use anthroxy.Prelude.{
  ℕ, zero, suc, ◌+◌, ◌≡◌, refl, Bool, true, false, ◌||◌, Option, none, some, List, [], ◌∷◌, ◌++◌,
  if◌then◌else◌, any, get_elem?, map, Text, text_eq, Result, ok, err,
}

-- What the configuration says of a model.
pub record ModelConfig : Type 0 where
  pub id : Text
  pub backend : Text
  pub upstream_model : Option Text
  pub display_name : Option Text
  pub aliases : List Text

pub record Route : Type 0 where
  pub id : Text
  pub backend : Text
  pub upstream_model : Text
  pub display_name : Text
  pub aliases : List Text

pub data Match : Type 0 where
  exact alias default_match : Match

-- `Option<usize>` of what a name maps to.
abbrev pub NameMap : Type 0
NameMap = List (Text × ℕ)

unfoldable pub get : Text → NameMap → Option ℕ
unfolding text_eq
get name [] = none
get name ((key, index) ∷ m) = if text_eq key name then some index else get name m

-- An index out of range, on which Rust panics.
pub data Panic : Type 0 where
  out_of_range : Panic

-- `Resolution`
abbrev pub Resolution : Type 0
Resolution = Route × Match

pub record Registry : Type 0 where
  pub routes : List Route
  pub by_name : NameMap
  pub default : Option ℕ

unfoldable pub insert_aliases : ℕ → List Text → NameMap → NameMap
insert_aliases index [] m = m
insert_aliases index (a ∷ aliases) m = insert_aliases index aliases ((a, index) ∷ m)

abbrev unwrap_or : Option Text → Text → Text
unwrap_or none d = d
unwrap_or (some t) d = t

-- The route of a model.
abbrev pub route : ModelConfig → Route
route m = record {
  id = m.id;
  backend = m.backend;
  upstream_model = unwrap_or m.upstream_model m.id;
  display_name = unwrap_or m.display_name m.id;
  aliases = m.aliases;
}

-- The loop over `routes.iter().enumerate()`.
unfoldable pub insert_from : ℕ → List Route → NameMap → NameMap
unfolding insert_aliases
insert_from index [] m = m
insert_from index (r ∷ routes) m =
    insert_from (index + 1) routes (insert_aliases index r.aliases ((r.id, index) ∷ m))

-- `Registry::from_config`, past the building of the backends; `default_model` is
-- `config.routing.default_model`.
unfoldable pub from_config : List ModelConfig → Option Text → Registry
unfolding insert_from get
from_config models default_model =
    let routes = map route models in
    let by_name = insert_from 0 routes [] in
    record {
      routes = routes;
      by_name = by_name;
      default = elim default_model [ none ↦ none | some name ↦ get name by_name ];
    }

-- `&self.routes[index]`
abbrev pub at : Registry → ℕ → Result Panic Route
at g index = elim (get_elem? g.routes index) [ none ↦ err out_of_range | some r ↦ ok r ]

-- A route with why it matched.
abbrev pub by : (Route → Match) → Result Panic Route → Result Panic (Option Resolution)
by why (err e) = err e
by why (ok r) = ok (some (r, why r))

unfoldable pub lookup : Registry → Text → Result Panic (Option Resolution)
unfolding get text_eq
lookup g name = elim (get name g.by_name) [
  | none ↦ ok none
  | some index ↦ by (λ r. if text_eq r.id name then exact else alias) (at g index)
]

abbrev pub or_default :
    Registry → Result Panic (Option Resolution) → Result Panic (Option Resolution)
or_default g (err e) = err e
or_default g (ok (some found)) = ok (some found)
or_default g (ok none) = elim g.default [
  | none ↦ ok none
  | some index ↦ by (λ r. default_match) (at g index)
]

unfoldable pub resolve : Registry → Text → Result Panic (Option Resolution)
unfolding lookup
resolve g name = or_default g (lookup g name)

abbrev pub names_of : List Route → List Text
names_of [] = []
names_of (r ∷ routes) = (r.id ∷ r.aliases) ++ names_of routes

unfoldable pub known_names : Registry → List Text
known_names g = names_of g.routes
