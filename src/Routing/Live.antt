-- ===== src/Routing/Live.antt =====
-- src/routing/live.rs: the cached model list of a passthrough backend, and the routes it gives. A call
-- holds the lock from `checked` to `done`; what its pull of the list gives, if it makes one, is a value
-- of the call, and so is whether its headers fill every forced header.
pub mod Served
mod Tests
use anthroxy.Prelude.{
  ℕ, ◌-◌, ◌*◌, ltb, Bool, true, false, ◌||◌, ◌&&◌, not, Option, none, some, List, [], ◌∷◌,
  if◌then◌else◌, filter, Text, text_eq,
}
use anthroxy.Routing.Registry.{Route}

-- `ModelObject`, the fields that a route takes.
pub record ModelObject : Type 0 where
  pub id : Text
  pub display_name : Text

-- In milliseconds.
abbrev pub ttl : ℕ
ttl = 30 * 1000

pub record Entry : Type 0 where
  pub fetched_at : ℕ
  pub auth : Text
  pub complete : Bool
  pub models_of : List ModelObject

-- The fields of the backend that the list depends on.
pub record Source : Type 0 where
  pub name : Text
  pub forwards_client_auth : Bool

-- What `pull` gives within its deadline: a success or not, with the list, or an error.
pub data Pulled : Type 0 where
  answered : Bool → List ModelObject → Pulled
  failed timed_out : Pulled

pub record Call : Type 0 where
  -- The text of the client's `authorization`.
  pub authorization : Option Text
  -- `filled_by`
  pub complete : Bool
  pub checked : ℕ
  pub done : ℕ
  pub pulled : Pulled

unfoldable pub auth_of : Source → Call → Text
auth_of b c =
    if b.forwards_client_auth then elim c.authorization [ none ↦ [] | some t ↦ t ] else b.name

unfoldable pub listed : Pulled → List ModelObject
listed (answered true models) = models
listed (answered false models) = []
listed failed = []
listed timed_out = []

-- The entry that a call makes when it pulls the list.
unfoldable pub pulled_entry : Source → Call → Entry
unfolding auth_of listed
pulled_entry b c = record {
  fetched_at = c.done;
  auth = auth_of b c;
  complete = c.complete;
  models_of = listed c.pulled;
}

-- Whether a call is served from an entry.
unfoldable pub is_fresh : Source → Call → Entry → Bool
unfolding auth_of text_eq
is_fresh b c e =
    text_eq e.auth (auth_of b c)
    && ((e.complete || not c.complete) && ltb (c.checked - e.fetched_at) ttl)

-- `fetch`: the entry served and the one cached after it are the same. Beside it is whether the list
-- was pulled.
unfoldable pub fetch : Source → Option Entry → Call → Entry × Bool
unfolding is_fresh pulled_entry
fetch b none c = (pulled_entry b c, true)
fetch b (some e) c = if is_fresh b c e then (e, false) else (pulled_entry b c, true)

-- The cache after calls in the order in which they held the lock.
unfoldable pub cache_after : Source → List Call → Option Entry
unfolding fetch
cache_after b [] = none
cache_after b (c ∷ earlier) = some (fetch b (cache_after b earlier) c).0

module _ (occupied : Text → Bool) where
  -- `models`, of the list that `fetch` gave.
  unfoldable pub models : List ModelObject → List ModelObject
  models list = filter (λ m. not (occupied m.id)) list

  unfoldable pub find_named : Text → List ModelObject → Option ModelObject
  unfolding text_eq
  find_named name [] = none
  find_named name (m ∷ list) =
      let rest = find_named name list in if text_eq m.id name then some m else rest

  unfoldable pub identity : Text → List ModelObject → Option ModelObject
  unfolding find_named
  identity name list = if occupied name then none else find_named name list

  -- The route of a model that the list has.
  unfoldable pub live_route : Source → ModelObject → Route
  live_route b m = record {
    id = m.id;
    backend = b.name;
    upstream_model = m.id;
    display_name = m.display_name;
    aliases = [];
  }

  unfoldable pub lookup : Source → Text → List ModelObject → Option Route
  unfolding find_named live_route
  lookup b name list =
      if occupied name
      then none
      else elim (find_named name list) [ none ↦ none | some m ↦ some (live_route b m) ]
