-- ===== src/Upstream/Headers/Private.antt =====
-- What a backend learns of the client's credential.
use anthroxy.Prelude.{
  ◌≡◌, refl, sym, ◌∙◌, ap, Bool, true, false, not, none, some, List, [], ◌∷◌, if◌then◌else◌, Text,
  text_eq_iff, filter, arith, Bool-cases, Option-cases, Result-cases, inl, inr,
}
use anthroxy.Http.{Http, IsLawful, values}
use anthroxy.Config.Templates.{Part, parse, is_client_credential}
use anthroxy.Config.Templates.Parsing.{IsSpelled, parse-IsSpelled}
use anthroxy.Config.Templates.Rendering.{IsAlike, render-IsAlike}
use anthroxy.Upstream.Headers.{
  Backend, relay, with_beta, force, resolved, dropped, is_dropped, is_one_of, is_hop_by_hop,
  upstream_headers, forced_headers,
}

-- The items of a request but the client's credential.
unfoldable pub public_items : List (Text × Text) → List (Text × Text)
public_items items = filter (λ item. not (is_client_credential item.0)) items

-- The client's credential does not pass.
is_dropped-credential :
    (backend : Backend) (n : Text)
    → backend.forwards_client_auth ≡ false
    → is_client_credential n ≡ true
    → is_dropped backend n ≡ true
unfolding is_client_credential dropped is_one_of is_hop_by_hop
is_dropped-credential backend n no_auth c = ground (arith, no_auth, c)

module _ (h : Http) where
  relay-public_items :
      (skips : Text → Bool) (items : List (Text × Text)) (out : h.Map)
      → ((n : Text) → is_client_credential n ≡ true → skips n ≡ true)
      → relay h skips items out ≡ relay h skips (public_items items) out
  unfolding relay public_items
  relay-public_items skips [] out s = refl
  relay-public_items skips ((k, v) ∷ items) out s = elim (Bool-cases (is_client_credential k)) [
    | inl c ↦ simp (c, s k c) (relay-public_items skips items out s)
    | inr p ↦ simp p (relay-public_items skips items (if skips k then out else h.append k v out) s)
  ]

  values-public_items :
      (n : Text) (items : List (Text × Text))
      → is_client_credential n ≡ false
      → values n items ≡ values n (public_items items)
  unfolding public_items
  values-public_items n [] p = refl
  values-public_items n ((k, v) ∷ items) p = elim (Bool-cases (is_client_credential k)) [
    | inl c ↦ ground (arith, p, c, values-public_items n items p, text_eq_iff k n)
    | inr q ↦ ground (arith, p, q, values-public_items n items p, text_eq_iff k n)
  ]

  -- Each template of the forced headers is one that parsed.
  AllSpelled : List (Text × List Part) → Type 0
  AllSpelled [] = Unit
  AllSpelled ((k, template) ∷ headers) = ((t : Text) × IsSpelled h template t) × AllSpelled headers

  forced_headers-AllSpelled :
      (short : Text → Text) (config : List (Text × Text)) (headers : List (Text × List Part))
      → forced_headers h short config ≡ some headers
      → AllSpelled headers
  unfolding forced_headers AllSpelled
  forced_headers-AllSpelled short [] headers e =
      let same : headers ≡ [] = ground (arith, e) in rw same tt
  forced_headers-AllSpelled short ((written, value) ∷ config) headers e =
      elim (Option-cases (h.header_name written)) [
        | inl none_e ↦ let no : ⊥ = ground (arith, e, none_e) in elim no [ ]
        | inr (name, name_e) ↦ elim (Result-cases (parse h short value)) [
          | inr (x, err_e) ↦ let no : ⊥ = ground (arith, e, name_e, err_e) in elim no [ ]
          | inl (template, ok_e) ↦ elim (Option-cases (forced_headers h short config)) [
            | inl none_e ↦ let no : ⊥ = ground (arith, e, name_e, ok_e, none_e) in elim no [ ]
            | inr (rest, rest_e) ↦
                let same : headers ≡ (name, template) ∷ rest =
                  ground (arith, e, name_e, ok_e, rest_e) in
                rw same (
                  (value, parse-IsSpelled h short value template ok_e),
                  forced_headers-AllSpelled short config rest rest_e,
                )
          ]
        ]
      ]

  force-IsAlike :
      (headers : List (Text × List Part)) (a b out : h.Map)
      → AllSpelled headers
      → IsAlike h a b
      → force h headers a out ≡ force h headers b out
  unfolding force AllSpelled resolved
  force-IsAlike [] a b out s alike = refl
  force-IsAlike ((k, template) ∷ headers) a b out ((t, spelled), s) alike =
      simp (force, resolved, render-IsAlike h template t a b spelled alike)
        (force-IsAlike headers a b
          (elim (resolved h template b) [
            | some value ↦ h.insert k value out
            | none ↦ h.remove k out
          ])
          s alike)

  -- A backend whose forced headers come from a configuration that parsed and that does not forward
  -- the client's authorization is sent the same headers for two requests that differ only in their
  -- authorization, API key and proxy authorization.
  pub upstream_headers-private :
      (lawful : IsLawful h) (short : Text → Text) (config : List (Text × Text)) (backend : Backend)
      (a b : h.Map)
      → forced_headers h short config ≡ some backend.headers
      → backend.forwards_client_auth ≡ false
      → public_items (h.entries a) ≡ public_items (h.entries b)
      → upstream_headers h a backend ≡ upstream_headers h b backend
  unfolding upstream_headers
  upstream_headers-private lawful short config backend a b e no_auth same =
      let skips = is_dropped backend in
      let drops : (n : Text) → is_client_credential n ≡ true → skips n ≡ true =
        λ n. is_dropped-credential backend n no_auth in
      let relayed : relay h skips (h.entries a) h.empty ≡ relay h skips (h.entries b) h.empty =
        relay-public_items skips (h.entries a) h.empty drops
        ∙ ap (λ items. relay h skips items h.empty) same
        ∙ sym (relay-public_items skips (h.entries b) h.empty drops) in
      let alike : IsAlike h a b = λ n p.
        sym (lawful.values-entries n a)
        ∙ values-public_items n (h.entries a) p
        ∙ ap (values n) same
        ∙ sym (values-public_items n (h.entries b) p)
        ∙ lawful.values-entries n b in
      let spelled = forced_headers-AllSpelled short config backend.headers e in
      ap (λ out. with_beta h backend.anthropic_beta out)
        (force-IsAlike backend.headers a b (relay h skips (h.entries a) h.empty) spelled alike
          ∙ ap (force h backend.headers b) relayed)
