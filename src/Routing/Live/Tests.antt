-- ===== src/Routing/Live/Tests.antt =====
-- Two clients, the second with a forced header that the first lacked.
use anthroxy.Prelude.{
  ℕ, ◌+◌, ◌≡◌, refl, Bool, true, false, none, [], ◌∷◌, Text, ascii, text_eq, arith,
}
use anthroxy.Routing.Live.{ModelObject, Source, Call, answered, fetch, cache_after, lookup}
use anthroxy.Routing.Live.Served.{pullers, IsCall, Stands, fetch-served, Looked, lookup-Looked}

abbrev source : Source
source = record { name = ascii "b"; forwards_client_auth = false }

abbrev model : ModelObject
model = record { id = ascii "m"; display_name = ascii "M" }

abbrev call : Bool → ℕ → Call
call complete at = record {
  authorization = none;
  complete = complete;
  checked = at;
  done = at + 5;
  pulled = answered true (model ∷ []);
}

not_stood_for : (fetch source (cache_after source (call false 0 ∷ [])) (call true 100)).1 ≡ true
unfolding fetch cache_after text_eq
not_stood_for = refl

stands_for : (fetch source (cache_after source (call true 0 ∷ [])) (call false 100)).1 ≡ false
unfolding fetch cache_after text_eq
stands_for = refl

fetch-served_example :
    (p : Call) × IsCall p (pullers source (call false 100 ∷ call true 0 ∷ []))
    × Stands source
        (call false 100)
        p
        (fetch source (cache_after source (call true 0 ∷ [])) (call false 100)).0.models_of
fetch-served_example = fetch-served source (call false 100) (call true 0 ∷ []) (omega arith)

abbrev is_taken : Text → Bool
is_taken t = text_eq t (ascii "a")

lookup-Looked_example :
    Looked is_taken source
      (ascii "m")
      (model ∷ [])
      (lookup is_taken source (ascii "m") (model ∷ []))
lookup-Looked_example = lookup-Looked is_taken source (ascii "m") (model ∷ [])
