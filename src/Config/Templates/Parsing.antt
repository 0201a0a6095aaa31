-- ===== src/Config/Templates/Parsing.antt =====
-- What `Template::parse` makes of a text.
use anthroxy.Prelude.{
  ℕ, zero, suc, ◌≤◌, ◌<◌, ◌≡◌, refl, sym, ap, append-nil, false, none, some, List, [], ◌∷◌, ◌++◌,
  is_empty, length, Text, ascii, split_once, split_once-append, ok, err, map_ok, arith,
  length-append, Option-cases, Result-cases, inl, inr,
}
use anthroxy.Http.{Http}
use anthroxy.Config.Templates.{
  Part, text, header, unterminated, placeholder, with_text, is_client_credential, named, parse_from,
  parse,
}

module _ (h : Http) where
  -- A text that parts stand for: a part is there as it is, or as a placeholder with some spelling of
  -- the name of a header that is not the client's credential.
  unfoldable pub IsSpelled : List Part → Text → Type 0
  IsSpelled [] t = t ≡ []
  IsSpelled (text s ∷ parts) t =
      (rest : Text) × (is_empty s ≡ false) × (t ≡ s ++ rest) × IsSpelled parts rest
  IsSpelled (header name ∷ parts) t =
      (written : Text) × (rest : Text) × (h.header_name written ≡ some name)
      × (is_client_credential name ≡ false)
      × (t ≡ placeholder ++ (written ++ (ascii "}" ++ rest)))
      × IsSpelled parts rest

  with_text-IsSpelled :
      (before t : Text) (parts : List Part)
      → IsSpelled parts t
      → IsSpelled (with_text before parts) (before ++ t)
  unfolding IsSpelled
  with_text-IsSpelled [] t parts s = s
  with_text-IsSpelled (c ∷ before) t parts s = (t, refl, refl, s)

  last_text-IsSpelled : (t : Text) → IsSpelled (with_text t []) t
  unfolding IsSpelled
  last_text-IsSpelled [] = refl
  last_text-IsSpelled (c ∷ t) = ([], refl, sym (append-nil (c ∷ t)), refl)

module _ (h : Http) (short : Text → Text) where
  named-ok :
      (written name : Text)
      → named h short written ≡ ok name
      → (h.header_name written ≡ some name) × (is_client_credential name ≡ false)
  unfolding named
  named-ok written name e = elim (Option-cases (h.header_name written)) [
    | inl n ↦ ground (arith, n, e)
    | inr (name', n) ↦ ground (arith, n, e)
  ]

  -- What a round leaves is shorter.
  length-behind :
      (t before after written behind : Text)
      → split_once placeholder t ≡ some (before, after)
      → split_once (ascii "}") after ≡ some (written, behind)
      → suc (length behind) ≤ length t
  length-behind t before after written behind e f =
      rw
        (
          split_once-append placeholder t before after e,
          split_once-append (ascii "}") after written behind f,
          length-append,
        )
        (omega
          (arith, length-append (ascii "}") behind, length-append written (ascii "}" ++ behind)))

  parse_from-IsSpelled :
      (n : ℕ) (t : Text) (parts : List Part)
      → parse_from h short n t ≡ ok parts
      → IsSpelled h parts t
  unfolding parse_from IsSpelled
  parse_from-IsSpelled zero t parts e = cc
  parse_from-IsSpelled (suc n) t parts e = elim (Option-cases (split_once placeholder t)) [
    | inl none_e ↦
        let same : parts ≡ with_text t [] = ground (arith, e, none_e) in
        rw same (last_text-IsSpelled h t)
    | inr ((before, after), at_open) ↦ elim (Option-cases (split_once (ascii "}") after)) [
      | inl none_e ↦ let no : ⊥ = ground (arith, e, at_open, none_e) in elim no [ ]
      | inr ((written, behind), at_close) ↦ elim (Result-cases (named h short written)) [
        | inr (x, no_name) ↦
            let no : ⊥ = ground (arith, e, at_open, at_close, no_name) in elim no [ ]
        | inl (name, is_name) ↦ elim (Result-cases (parse_from h short n behind)) [
          | inr (x, no_parts) ↦
              let no : ⊥ = ground (arith, e, at_open, at_close, is_name, no_parts) in elim no [ ]
          | inl (parts', is_parts) ↦
              let same : parts ≡ with_text before (header name ∷ parts') =
                ground (arith, e, at_open, at_close, is_name, is_parts) in
              let ok_name = named-ok written name is_name in
              rw
                (
                  same,
                  split_once-append placeholder t before after at_open,
                  split_once-append (ascii "}") after written behind at_close,
                )
                (with_text-IsSpelled h before (placeholder ++ (written ++ (ascii "}" ++ behind)))
                  (header name ∷ parts')
                  (
                    written,
                    behind,
                    ok_name.0,
                    ok_name.1,
                    refl,
                    parse_from-IsSpelled n behind parts' is_parts,
                  ))
        ]
      ]
    ]
  ]

  -- Each text that parses is spelled by its parts, with no part empty and none that names the
  -- client's credential.
  pub parse-IsSpelled :
      (t : Text) (parts : List Part) → parse h short t ≡ ok parts → IsSpelled h parts t
  unfolding parse
  parse-IsSpelled t parts e = parse_from-IsSpelled (suc (length t)) t parts e

  -- Fuel that is more than the length of the text is enough.
  parse_from-fuel :
      (m n : ℕ) (t : Text)
      → length t < m
      → length t < n
      → parse_from h short m t ≡ parse_from h short n t
  unfolding parse_from
  parse_from-fuel zero n t l k = let no : ⊥ = omega (arith, l) in elim no [ ]
  parse_from-fuel (suc m) zero t l k = let no : ⊥ = omega (arith, k) in elim no [ ]
  parse_from-fuel (suc m) (suc n) t l k = elim (Option-cases (split_once placeholder t)) [
    | inl none_e ↦ simp (none_e, parse_from) refl
    | inr ((before, after), at_open) ↦ elim (Option-cases (split_once (ascii "}") after)) [
      | inl none_e ↦ simp (at_open, none_e, parse_from) refl
      | inr ((written, behind), at_close) ↦
          let shorter = length-behind t before after written behind at_open at_close in
          let same =
            parse_from-fuel m n behind (omega (arith, shorter, l)) (omega (arith, shorter, k)) in
          simp (at_open, at_close, parse_from)
            (ap
              (λ r. elim (named h short written) [
                | err e ↦ err e
                | ok name ↦ map_ok (λ parts. with_text before (header name ∷ parts)) r
              ])
              same)
    ]
  ]

  -- The loop of `parse`, with no fuel: a text without a placeholder is one part; a placeholder that
  -- is not closed, names no header or names the client's credential is an error; else the text
  -- before it, the header, and what the text behind it parses to.
  pub parse-round :
      (t : Text)
      → parse h short t ≡ elim (split_once placeholder t) [
        | none ↦ ok (with_text t [])
        | some (before, after) ↦ elim (split_once (ascii "}") after) [
          | none ↦ err unterminated
          | some (written, behind) ↦ elim (named h short written) [
            | err e ↦ err e
            | ok name ↦
                map_ok (λ parts. with_text before (header name ∷ parts)) (parse h short behind)
          ]
        ]
      ]
  unfolding parse parse_from
  parse-round t = elim (Option-cases (split_once placeholder t)) [
    | inl none_e ↦ simp (none_e, parse, parse_from) refl
    | inr ((before, after), at_open) ↦ elim (Option-cases (split_once (ascii "}") after)) [
      | inl none_e ↦ simp (at_open, none_e, parse, parse_from) refl
      | inr ((written, behind), at_close) ↦
          let shorter = length-behind t before after written behind at_open at_close in
          let same =
            parse_from-fuel (length t) (suc (length behind)) behind (omega (arith, shorter))
              (omega arith) in
          simp (at_open, at_close, parse_from)
            (ap
              (λ r. elim (named h short written) [
                | err e ↦ err e
                | ok name ↦ map_ok (λ parts. with_text before (header name ∷ parts)) r
              ])
              same)
    ]
  ]
