-- ===== src/Upstream/Headers/Dropped.antt =====
-- `dropped_headers` of src/upstream/headers.rs: the report of what the client sent and the backend
-- does not see.
use anthroxy.Prelude.{
  ◌≡◌, refl, ◌∙◌, ap, Bool, true, false, ◌==◌, ltb, Option, none, some, List, [], ◌∷◌, map,
  if◌then◌else◌, any, Text, ascii, text_eq, text_eq_iff, arith,
}
use anthroxy.Http.{Http, IsLawful, values}
use anthroxy.Config.Templates.{Part}
use anthroxy.Upstream.Headers.{
  Backend, DropReason, framing, client_credential, uncompressed, backend_kind, drop_headers,
  overridden, dropped,
}

pub record DroppedHeader : Type 0 where
  pub name : Text
  pub value : Text
  pub reason : DropReason

-- `REDACTED`
abbrev pub redacted : Text
redacted = ascii "<redacted>"

-- `ForcedHeaders::contains_key`
unfoldable pub contains_key : List (Text × List Part) → Text → Bool
unfolding text_eq
contains_key headers name = any (λ header. text_eq header.0 name) headers

unfoldable pub reason_of : Text → Backend → Option DropReason
unfolding dropped contains_key
reason_of name backend = elim (dropped name backend) [
  | some reason ↦ some reason
  | none ↦ if contains_key backend.headers name then some overridden else none
]

-- The order of `str`.
unfoldable pub text_le : Text → Text → Bool
text_le [] t = true
text_le (x ∷ s) [] = false
text_le (x ∷ s) (y ∷ t) = if x == y then text_le s t else ltb x y

-- `sort_by` the name, which keeps the order of equal ones.
unfoldable pub insert_sorted : DroppedHeader → List DroppedHeader → List DroppedHeader
unfolding text_le
insert_sorted d [] = d ∷ []
insert_sorted d (e ∷ es) =
    let rest = insert_sorted d es in if text_le d.name e.name then d ∷ e ∷ es else e ∷ rest

unfoldable pub sort_by_name : List DroppedHeader → List DroppedHeader
unfolding insert_sorted
sort_by_name [] = []
sort_by_name (d ∷ ds) = insert_sorted d (sort_by_name ds)

module _ (h : Http) where
  unfoldable pub header_text : Text → Text
  header_text value = elim (h.to_str value) [ none ↦ ascii "<binary>" | some t ↦ t ]

  unfoldable pub shown_for : DropReason → Text → Text
  unfolding header_text
  shown_for client_credential value = redacted
  shown_for framing value = header_text value
  shown_for uncompressed value = header_text value
  shown_for backend_kind value = header_text value
  shown_for drop_headers value = header_text value
  shown_for overridden value = header_text value

  -- The loop over the client's headers.
  unfoldable pub reported : List (Text × Text) → Backend → List DroppedHeader
  unfolding reason_of shown_for
  reported [] backend = []
  reported ((name, value) ∷ items) backend =
      let rest = reported items backend in
      elim (reason_of name backend) [
        | none ↦ rest
        | some reason ↦
            record { name = name; value = shown_for reason value; reason = reason } ∷ rest
      ]

  unfoldable pub dropped_headers : h.Map → Backend → List DroppedHeader
  unfolding reported sort_by_name
  dropped_headers client backend = sort_by_name (reported (h.entries client) backend)

-- The name and the value of each item of a report.
abbrev pub report_items : List DroppedHeader → List (Text × Text)
report_items ds = map (λ d. (d.name, d.value)) ds

text_le_self : (t : Text) → text_le t t ≡ true
unfolding text_le
text_le_self [] = refl
text_le_self (x ∷ t) = ground (arith, text_le_self t)

values-insert_sorted :
    (n : Text) (d : DroppedHeader) (ds : List DroppedHeader)
    → values n (report_items (insert_sorted d ds)) ≡ values n (report_items (d ∷ ds))
unfolding insert_sorted
values-insert_sorted n d [] = refl
values-insert_sorted n d (e ∷ es) = ground (
  arith,
  values-insert_sorted n d es,
  text_eq_iff d.name n,
  text_eq_iff e.name n,
  text_le_self d.name,
)

values-sort_by_name :
    (n : Text) (ds : List DroppedHeader)
    → values n (report_items (sort_by_name ds)) ≡ values n (report_items ds)
unfolding sort_by_name
values-sort_by_name n [] = refl
values-sort_by_name n (d ∷ ds) =
    values-insert_sorted n d (sort_by_name ds) ∙ ground (arith, values-sort_by_name n ds)

module _ (h : Http) where
  reported-cons :
      (k v : Text) (items : List (Text × Text)) (backend : Backend)
      → reported h ((k, v) ∷ items) backend ≡ elim (reason_of k backend) [
        | none ↦ reported h items backend
        | some reason ↦
            record { name = k; value = shown_for h reason v; reason = reason }
            ∷ reported h items backend
      ]
  unfolding reported
  reported-cons k v items backend = refl

  reported-nil : (backend : Backend) → reported h [] backend ≡ []
  unfolding reported
  reported-nil backend = refl

  values-reported :
      (n : Text) (items : List (Text × Text)) (backend : Backend)
      → values n (report_items (reported h items backend)) ≡ elim (reason_of n backend) [
        | none ↦ []
        | some reason ↦ map (shown_for h reason) (values n items)
      ]
  values-reported n [] backend = ground (arith, reported-nil backend)
  values-reported n ((k, v) ∷ items) backend =
      ground
        (arith, reported-cons k v items backend, values-reported n items backend, text_eq_iff k n)

  -- The values that the report has under a name: none when the name is neither dropped nor forced,
  -- else all that the client sent, in order, as text, or redacted when they are its credential.
  pub dropped_headers_lem :
      (lawful : IsLawful h) (n : Text) (client : h.Map) (backend : Backend)
      → values n (report_items (dropped_headers h client backend)) ≡ elim (reason_of n backend) [
        | none ↦ []
        | some reason ↦ map (shown_for h reason) (h.get_all n client)
      ]
  unfolding dropped_headers
  dropped_headers_lem lawful n client backend =
      values-sort_by_name n (reported h (h.entries client) backend)
      ∙ values-reported n (h.entries client) backend
      ∙ ap
          (λ vs. elim (reason_of n backend) [
            | none ↦ []
            | some reason ↦ map (shown_for h reason) vs
          ])
          (lawful.values-entries n client)
