-- ===== src/Upstream/Headers/Values.antt =====
-- The values that the two relays of headers give each name.
use anthroxy.Prelude.{
  ◌≡◌, refl, sym, ◌∙◌, Bool, ◌||◌, not, Option, none, some, List, [], ◌∷◌, ◌++◌, append-nil,
  append_assoc, if◌then◌else◌, is_empty, Text, ascii, text_eq, text_eq_iff, arith, Bool-cases,
  Option-cases, inl, inr,
}
use anthroxy.Http.{Http, IsLawful, values}
use anthroxy.Config.Templates.{Part}
use anthroxy.Upstream.Headers.{
  Backend, relay, force, resolved, with_beta, merge_beta, is_dropped, upstream_headers, is_framed,
  response_headers,
}

module _ (h : Http) where
  -- What the forced headers say of a name: nothing, that it has no value, or its value.
  pub forced : List (Text × List Part) → Text → h.Map → Option (Option Text)
  forced [] n client = none
  forced ((k, template) ∷ headers) n client =
      let last = forced headers n client in
      elim last [
        | some said ↦ some said
        | none ↦ if text_eq k n then some (resolved h template client) else none
      ]

  -- The values that a request has under a name where no beta flag is added.
  pub sent : Backend → Text → h.Map → List Text
  sent backend n client = elim (forced backend.headers n client) [
    | some none ↦ []
    | some (some value) ↦ value ∷ []
    | none ↦ if is_dropped backend n then [] else h.get_all n client
  ]

module _ (h : Http) (lawful : IsLawful h) where
  get_all-relay :
      (skips : Text → Bool) (n : Text) (items : List (Text × Text)) (out : h.Map)
      → h.get_all n (relay h skips items out)
        ≡ h.get_all n out ++ (if skips n then [] else values n items)
  unfolding relay
  get_all-relay skips n [] out = ground (arith, append-nil (h.get_all n out))
  get_all-relay skips n ((k, v) ∷ items) out = elim (Bool-cases (skips k)) [
    | inl skipped ↦ ground (arith, skipped, get_all-relay skips n items out, text_eq_iff k n)
    | inr kept ↦ ground (
      arith,
      kept,
      get_all-relay skips n items (h.append k v out),
      lawful.get_all-append n k v out,
      append_assoc (h.get_all n out) (v ∷ []) (values n items),
      append-nil (h.get_all n out),
      text_eq_iff k n,
    )
  ]

  get_all-force :
      (headers : List (Text × List Part)) (n : Text) (client out : h.Map)
      → h.get_all n (force h headers client out) ≡ elim (forced h headers n client) [
        | none ↦ h.get_all n out
        | some none ↦ []
        | some (some value) ↦ value ∷ []
      ]
  unfolding force forced
  get_all-force [] n client out = refl
  get_all-force ((k, template) ∷ headers) n client out =
      elim (Option-cases (resolved h template client)) [
        | inl none_e ↦
            simp (force, none_e)
              (ground (
                arith,
                get_all-force headers n client (h.remove k out),
                lawful.get_all-remove n k out,
              ))
        | inr (value, some_e) ↦
            simp (force, some_e)
              (ground (
                arith,
                get_all-force headers n client (h.insert k value out),
                lawful.get_all-insert n k value out,
              ))
      ]

  -- Each name of an answer keeps its values in order, but the hop-by-hop names and
  -- `content-length`, which have none.
  pub response_headers_lem :
      (n : Text) (upstream : h.Map)
      → h.get_all n (response_headers h upstream)
        ≡ (if is_framed n then [] else h.get_all n upstream)
  unfolding response_headers
  response_headers_lem n upstream =
      get_all-relay is_framed n (h.entries upstream) h.empty
      ∙ rw (lawful.get_all-empty n, lawful.values-entries n upstream) refl

  get_all-with_beta :
      (extra : List Text) (n : Text) (out out' : h.Map)
      → with_beta h extra out ≡ some out'
      → h.get_all n out' ≡ (
          if is_empty extra || not (text_eq (ascii "anthropic-beta") n)
          then h.get_all n out
          else elim (h.header_value (merge_beta h (h.get_all (ascii "anthropic-beta") out) extra)) [
            | none ↦ []
            | some value ↦ value ∷ []
          ])
  unfolding with_beta
  get_all-with_beta [] n out out' e = ground (arith, e)
  get_all-with_beta (flag ∷ extra) n out out' e =
      elim (Option-cases
        (h.header_value (merge_beta h (h.get_all (ascii "anthropic-beta") out) (flag ∷ extra)))) [
          | inl none_e ↦ let no : ⊥ = ground (arith, e, none_e) in elim no [ ]
          | inr (value, some_e) ↦
              ground (arith, e, some_e, lawful.get_all-insert n (ascii "anthropic-beta") value out)
        ]

  -- Before the beta flags are added.
  get_all-force-relay :
      (backend : Backend) (n : Text) (client : h.Map)
      → h.get_all n
          (force h backend.headers client (relay h (is_dropped backend) (h.entries client) h.empty))
        ≡ sent h backend n client
  unfolding sent
  get_all-force-relay backend n client =
      let relayed = relay h (is_dropped backend) (h.entries client) h.empty in
      ground (
        arith,
        get_all-force backend.headers n client relayed,
        get_all-relay (is_dropped backend) n (h.entries client) h.empty,
        lawful.get_all-empty n,
        lawful.values-entries n client,
      )

  -- When a request's headers are built, each name has the values of `sent`: the last forced value,
  -- none where that one cannot be filled in, else the client's in order unless the name is dropped.
  -- Only `anthropic-beta` of a backend with beta flags has one value in their place, the merge of
  -- those with the flags.
  pub upstream_headers_lem :
      (backend : Backend) (n : Text) (client out : h.Map)
      → upstream_headers h client backend ≡ some out
      → h.get_all n out ≡ (
          if is_empty backend.anthropic_beta || not (text_eq (ascii "anthropic-beta") n)
          then sent h backend n client
          else elim (h.header_value (
              merge_beta h
                (sent h backend (ascii "anthropic-beta") client)
                backend.anthropic_beta)) [ none ↦ [] | some value ↦ value ∷ [] ])
  unfolding upstream_headers
  upstream_headers_lem backend n client out e =
      rw
        (
          sym (get_all-force-relay backend n client),
          sym (get_all-force-relay backend (ascii "anthropic-beta") client),
        )
        (get_all-with_beta backend.anthropic_beta n
          (force h backend.headers client (relay h (is_dropped backend) (h.entries client) h.empty))
          out e)
