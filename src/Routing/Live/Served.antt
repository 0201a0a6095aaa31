-- ===== src/Routing/Live/Served.antt =====
-- Whose list a client is served by src/routing/live.rs, and which names are routed by it.
use anthroxy.Prelude.{
  ◌+◌, ◌<◌, ◌≤◌, ◌≡◌, ◌≢◌, ◌⊎◌, inl, inr, refl, ap, sym, ◌∙◌, Bool, true, false, ◌||◌, not, Option,
  none, some, List, [], ◌∷◌, if◌then◌else◌, any, Text, text_eq, text_eq→eq, arith, Bool-cases,
  Option-cases,
}
use mathlib.Core.Path.{subst}
use anthroxy.Routing.Registry.{Route}
use anthroxy.Routing.Live.{
  ModelObject, ttl, Entry, Source, Pulled, answered, failed, timed_out, Call, auth_of, listed,
  pulled_entry, is_fresh, fetch, cache_after, models, find_named, live_route, lookup,
}

-- Which of some calls pulled the list.
unfoldable pub pullers : Source → List Call → List Call
pullers b [] = []
pullers b (c ∷ earlier) =
    let rest = pullers b earlier in if (fetch b (cache_after b earlier) c).1 then c ∷ rest else rest

abbrev pub IsCall : Call → List Call → Type 0
IsCall c [] = ⊥
IsCall c (x ∷ xs) = (x ≡ c) ⊎ IsCall c xs

-- The client's authorization, where none counts as the empty text.
abbrev pub token : Call → Text
token c = elim c.authorization [ none ↦ [] | some t ↦ t ]

-- That a call may be served what another pulled.
pub record Stands (b : Source) (c pulling : Call) (served : List ModelObject) : Type 0 where
  pub same_client : b.forwards_client_auth ≡ true → token pulling ≡ token c
  pub as_filled : c.complete ≡ true → pulling.complete ≡ true
  pub recent : c.checked < pulling.done + ttl
  pub answered_with :
      (list : List ModelObject) → pulling.pulled ≡ answered true list → served ≡ list
  pub or_nothing : ((list : List ModelObject) → pulling.pulled ≢ answered true list) → served ≡ []

-- The entries that the pulls among some calls made.
unfoldable pub pulls : Source → List Call → List Entry
pulls b [] = []
pulls b (c ∷ earlier) =
    let rest = pulls b earlier in
    if (fetch b (cache_after b earlier) c).1 then pulled_entry b c ∷ rest else rest

abbrev pub IsIn : Entry → List Entry → Type 0
IsIn e [] = ⊥
IsIn e (x ∷ xs) = (x ≡ e) ⊎ IsIn e xs

-- That an entry may be served to a call.
pub record MayServe (b : Source) (c : Call) (e : Entry) : Type 0 where
  pub same_auth : e.auth ≡ auth_of b c
  pub as_complete : (e.complete || not c.complete) ≡ true
  pub young : c.checked < e.fetched_at + ttl

module _ (b : Source) where
  -- A call pulls the list, or is served the fresh entry that is cached.
  data Fetched (cache : Option Entry) (c : Call) : Type 0 where
    pull_made :
        (fetch b cache c).1 ≡ true → (fetch b cache c).0 ≡ pulled_entry b c → Fetched cache c
    reused :
        (e : Entry)
        → cache ≡ some e
        → (fetch b cache c).1 ≡ false
        → (fetch b cache c).0 ≡ e
        → is_fresh b c e ≡ true
        → Fetched cache c

  fetch-Fetched : (cache : Option Entry) (c : Call) → Fetched cache c
  unfolding fetch
  fetch-Fetched none c = pull_made refl refl
  fetch-Fetched (some e) c = elim (Bool-cases (is_fresh b c e)) [
    | inl fresh ↦ reused e refl (rw fresh refl) (rw fresh refl) fresh
    | inr stale ↦ pull_made (rw stale refl) (rw stale refl)
  ]

  pulls-pull_made :
      (c : Call) (earlier : List Call)
      → (fetch b (cache_after b earlier) c).1 ≡ true
      → pulls b (c ∷ earlier) ≡ pulled_entry b c ∷ pulls b earlier
  unfolding pulls
  pulls-pull_made c earlier e = rw e refl

  pulls-reused :
      (c : Call) (earlier : List Call)
      → (fetch b (cache_after b earlier) c).1 ≡ false
      → pulls b (c ∷ earlier) ≡ pulls b earlier
  unfolding pulls
  pulls-reused c earlier e = rw e refl

  some-eq : {e f : Entry} → some e ≡ some f → e ≡ f
  some-eq h = cc

  cached-IsIn :
      (calls : List Call) (e : Entry) → cache_after b calls ≡ some e → IsIn e (pulls b calls)
  unfolding cache_after
  cached-IsIn [] e h = cc
  cached-IsIn (c ∷ earlier) e h = rw (← some-eq h) (elim (fetch-Fetched (cache_after b earlier) c) [
    | pull_made made entry ↦ rw (pulls-pull_made c earlier made) (inl (sym entry))
    | reused old cached kept same fresh ↦
        rw (pulls-reused c earlier kept, same) (cached-IsIn earlier old cached)
  ])

  fetch-IsIn :
      (c : Call) (earlier : List Call)
      → IsIn (fetch b (cache_after b earlier) c).0 (pulls b (c ∷ earlier))
  unfolding cache_after
  fetch-IsIn c earlier = cached-IsIn (c ∷ earlier) _ refl

  is_fresh-MayServe : (c : Call) (e : Entry) → is_fresh b c e ≡ true → MayServe b c e
  unfolding is_fresh
  is_fresh-MayServe c e h = record {
    same_auth = text_eq→eq e.auth (auth_of b c) (ground (arith, h));
    as_complete = ground (arith, h);
    young = ground (arith, h);
  }

  fetch-MayServe :
      (cache : Option Entry) (c : Call) → c.checked ≤ c.done → MayServe b c (fetch b cache c).0
  unfolding pulled_entry
  fetch-MayServe cache c later = elim (fetch-Fetched cache c) [
    | pull_made made entry ↦
        rw entry (record { same_auth = refl; as_complete = ground arith; young = omega arith })
    | reused e cached kept same fresh ↦ rw same (is_fresh-MayServe c e fresh)
  ]

  -- An entry was made by a call that pulled.
  pulls-pullers :
      (calls : List Call) (e : Entry)
      → IsIn e (pulls b calls)
      → (p : Call) × IsCall p (pullers b calls) × (e ≡ pulled_entry b p)
  unfolding pulls pullers
  pulls-pullers [] e there = elim there [ ]
  pulls-pullers (c ∷ earlier) e there = elim (Bool-cases (fetch b (cache_after b earlier) c).1) [
    | inl made ↦
        let split : IsIn e (pulled_entry b c ∷ pulls b earlier) =
          subst (λ es. IsIn e es) (pulls-pull_made c earlier made) there in
        elim split [
          | inl same ↦ (c, rw made (inl refl), sym same)
          | inr before ↦
              let (p, p_in, p_e) = pulls-pullers earlier e before in (p, rw made (inr p_in), p_e)
        ]
    | inr kept ↦
        let before : IsIn e (pulls b earlier) =
          subst (λ es. IsIn e es) (pulls-reused c earlier kept) there in
        let (p, p_in, p_e) = pulls-pullers earlier e before in (p, rw kept p_in, p_e)
  ]

  auth_of-token :
      (c p : Call) → auth_of b p ≡ auth_of b c → b.forwards_client_auth ≡ true → token p ≡ token c
  unfolding auth_of
  auth_of-token c p same forwards = ground (arith, same, forwards)

  listed-nothing :
      (p : Pulled) → ((list : List ModelObject) → p ≢ answered true list) → listed p ≡ []
  unfolding listed
  listed-nothing (answered true list) other = let no : ⊥ = other list refl in elim no [ ]
  listed-nothing (answered false list) other = refl
  listed-nothing failed other = refl
  listed-nothing timed_out other = refl

  MayServe-Stands :
      (c p : Call) → MayServe b c (pulled_entry b p) → Stands b c p (pulled_entry b p).models_of
  unfolding pulled_entry listed
  MayServe-Stands c p may = record {
    same_client = auth_of-token c p may.same_auth;
    as_filled = λ full. let enough = may.as_complete in ground (arith, full, enough);
    recent = may.young;
    answered_with = λ list e. rw e refl;
    or_nothing = listed-nothing p.pulled;
  }

  -- Whatever calls came before, the list that a call is served was pulled by one of them or by itself,
  -- which had the same authorization if the backend is sent the client's, filled every forced header if
  -- this call does, and ended less than TTL before this call checked. What is served is the list of a
  -- successful answer to that pull, and no model if it had none.
  pub fetch-served :
      (c : Call) (earlier : List Call)
      → c.checked ≤ c.done
      → (p : Call) × IsCall p (pullers b (c ∷ earlier))
        × Stands b c p (fetch b (cache_after b earlier) c).0.models_of
  fetch-served c earlier later =
      let (p, p_in, e) = pulls-pullers (c ∷ earlier) _ (fetch-IsIn c earlier) in
      let may = fetch-MayServe (cache_after b earlier) c later in
      (p, p_in, rw e (MayServe-Stands c p (rw (← e) may)))

abbrev is_some {ℓ} : {A : Type ℓ} → Option A → Bool
is_some none = false
is_some (some a) = true

-- What a route of a live model says.
pub record RoutesTo (b : Source) (name : Text) (r : Route) : Type 0 where
  pub named : r.id ≡ name
  pub sent_as : r.upstream_model ≡ name
  pub sent_to : r.backend ≡ b.name

module _ (occupied : Text → Bool) (b : Source) (name : Text) where
  -- A name that is among the models shown.
  abbrev pub is_listed : List ModelObject → Bool
  is_listed list = any (λ m. text_eq m.id name) (models occupied list)

  -- The answers to a look at the name: no route and not shown, or shown, free and routed under its name.
  pub data Looked (list : List ModelObject) : Option Route → Type 0 where
    missed : is_listed list ≡ false → Looked list none
    hit :
        (r : Route)
        → is_listed list ≡ true
        → occupied name ≡ false
        → RoutesTo b name r
        → Looked list (some r)

  is_listed-occupied : (list : List ModelObject) → occupied name ≡ true → is_listed list ≡ false
  unfolding models
  is_listed-occupied [] o = refl
  is_listed-occupied (m ∷ list) o = elim (Bool-cases (text_eq m.id name)) [
    | inl same ↦
        let taken : occupied m.id ≡ true = ap occupied (text_eq→eq m.id name same) ∙ o in
        ground (arith, taken, is_listed-occupied list o)
    | inr other ↦ ground (arith, other, is_listed-occupied list o)
  ]

  is_listed-free :
      (list : List ModelObject)
      → occupied name ≡ false
      → is_some (find_named occupied name list) ≡ is_listed list
  unfolding find_named models
  is_listed-free [] o = refl
  is_listed-free (m ∷ list) o = elim (Bool-cases (text_eq m.id name)) [
    | inl same ↦
        let free : occupied m.id ≡ false = ap occupied (text_eq→eq m.id name same) ∙ o in
        ground (arith, free, same)
    | inr other ↦ ground (arith, other, is_listed-free list o)
  ]

  find_named-id :
      (list : List ModelObject) (m : ModelObject)
      → find_named occupied name list ≡ some m
      → m.id ≡ name
  unfolding find_named
  find_named-id [] m h = cc
  find_named-id (x ∷ list) m h = elim (Bool-cases (text_eq x.id name)) [
    | inl same ↦
        let first : x ≡ m = ground (arith, same, h) in
        ap (λ y. y.id) (sym first) ∙ text_eq→eq x.id name same
    | inr other ↦ find_named-id list m (ground (arith, other, h))
  ]

  -- A name is routed to the backend, under that name, exactly when it is among the models that are
  -- shown; a name that is occupied is neither shown nor routed.
  pub lookup-Looked : (list : List ModelObject) → Looked list (lookup occupied b name list)
  unfolding lookup live_route
  lookup-Looked list = elim (Bool-cases (occupied name)) [
    | inl taken ↦ rw (taken, lookup) (missed (is_listed-occupied list taken))
    | inr free ↦ elim (Option-cases (find_named occupied name list)) [
      | inl e ↦
          rw (free, e, lookup) (missed (sym (is_listed-free list free) ∙ ap (λ o. is_some o) e))
      | inr (m, e) ↦
          let id_e = find_named-id list m e in
          rw (free, e, lookup)
            (hit (live_route occupied b m) (sym (is_listed-free list free) ∙ ap (λ o. is_some o) e)
              free (record { named = id_e; sent_as = id_e; sent_to = refl }))
    ]
  ]
