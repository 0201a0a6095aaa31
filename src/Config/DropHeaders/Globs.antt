-- ===== src/Config/DropHeaders/Globs.antt =====
-- What the patterns of src/config/drop_headers.rs mean: `*` stands for any run of characters.
use anthroxy.Prelude.{
  ℕ, ◌≡◌, ◌∙◌, sym, ap, refl, Bool, true, false, ◌||◌, not, none, some, List, [], ◌∷◌, ◌++◌,
  is_empty, Text, strip_prefix, arith, append_assoc, length, drop, ◌+◌, length-append,
  drop-length_append, drop-append, Option-cases, inl, inr, ◌⊎◌,
}
use anthroxy.Config.DropHeaders.{HeaderPattern, behind, found, rest_of, matches}

-- Text made of the parts, with any text before each, and before the first unless it is anchored,
-- and then more.
abbrev pub Made : Bool → List Text → Text → Text → Type 0
Made anchored [] more t = t ≡ more
Made true (part ∷ parts) more t = (rest : Text) × (t ≡ part ++ rest) × Made false parts more rest
Made false (part ∷ parts) more t =
    (run rest : Text) × (t ≡ run ++ (part ++ rest)) × Made false parts more rest

-- The text is what the pattern stands for.
abbrev pub Stands : HeaderPattern → Text → Type 0
Stands p t =
    (more : Text) × Made (not p.open_start) p.parts more t × ((p.open_end ≡ true) ⊎ (more ≡ []))

strip_prefix-append : (part rest : Text) → strip_prefix part (part ++ rest) ≡ some rest
unfolding strip_prefix
strip_prefix-append [] rest = refl
strip_prefix-append (c ∷ part) rest = ground (arith, strip_prefix-append part rest)

append-strip_prefix : (part t rest : Text) → strip_prefix part t ≡ some rest → t ≡ part ++ rest
unfolding strip_prefix
append-strip_prefix [] t rest e = cc
append-strip_prefix (c ∷ part) [] rest e = cc
append-strip_prefix (c ∷ part) (d ∷ t) rest e = ground (arith, append-strip_prefix part t rest)

behind-here : (part t rest : Text) → strip_prefix part t ≡ some rest → behind part t ≡ some rest
unfolding behind
behind-here part [] rest e = e
behind-here part (c ∷ t) rest e = rw (behind, e) refl

behind-later :
    (part : Text) (c : ℕ) (t : Text)
    → strip_prefix part (c ∷ t) ≡ none
    → behind part (c ∷ t) ≡ behind part t
unfolding behind
behind-later part c t e = rw (behind, e) refl

behind-run :
    (part t rest : Text) → behind part t ≡ some rest → (run : Text) × (t ≡ run ++ (part ++ rest))
unfolding behind
behind-run part [] rest e = ([], append-strip_prefix part [] rest e)
behind-run part (c ∷ t) rest e = elim (Option-cases (strip_prefix part (c ∷ t))) [
  | inr (r, q) ↦
      let same : r ≡ rest =
        let both : some r ≡ some rest = sym (behind-here part (c ∷ t) r q) ∙ e in cc in
      ([], append-strip_prefix part (c ∷ t) rest (q ∙ ap some same))
  | inl q ↦
      let (run, at) = behind-run part t rest (sym (behind-later part c t q) ∙ e) in
      (c ∷ run, ap (λ u. c ∷ u) at)
]

-- Two places of a part: what is behind the first holds what is behind the second.
overtaken :
    (part r run rest : Text) → part ++ r ≡ run ++ (part ++ rest) → (w : Text) × (r ≡ w ++ rest)
overtaken part r run rest e =
    let long : length (run ++ part) ≡ length run + length part = length-append run part in
    (
      drop (length part) (run ++ part),
      sym (drop-length_append part r)
          ∙ (ap (drop (length part)) (e ∙ sym (append_assoc run part rest))
              ∙ drop-append (length part) (run ++ part) rest (omega (arith, long))),
    )

behind-first :
    (part run rest : Text)
    → (r w : Text) × (behind part (run ++ (part ++ rest)) ≡ some r) × (r ≡ w ++ rest)
behind-first part [] rest =
    (rest, [], behind-here part (part ++ rest) rest (strip_prefix-append part rest), refl)
behind-first part (c ∷ run) rest =
    elim (Option-cases (strip_prefix part (c ∷ (run ++ (part ++ rest))))) [
      | inr (r, q) ↦
          let (w, at) = overtaken part r (c ∷ run) rest (sym (append-strip_prefix part _ r q)) in
          (r, w, behind-here part _ r q, at)
      | inl q ↦
          let (r, w, found, at) = behind-first part run rest in
          (r, w, behind-later part c _ q ∙ found, at)
    ]

rest_of-found :
    (anchored : Bool) (part : Text) (parts : List Text) (t rest : Text)
    → found anchored part t ≡ some rest
    → rest_of anchored (part ∷ parts) t ≡ rest_of false parts rest
unfolding rest_of
rest_of-found anchored part parts t rest e = rw (rest_of, e) refl

rest_of-missing :
    (anchored : Bool) (part : Text) (parts : List Text) (t : Text)
    → found anchored part t ≡ none
    → rest_of anchored (part ∷ parts) t ≡ none
unfolding rest_of
rest_of-missing anchored part parts t e = rw (rest_of, e) refl

rest_of-Made :
    (anchored : Bool) (parts : List Text) (t more : Text)
    → rest_of anchored parts t ≡ some more
    → Made anchored parts more t
unfolding rest_of
rest_of-Made true [] t more e = cc
rest_of-Made false [] t more e = cc
rest_of-Made true (part ∷ parts) t more e = elim (Option-cases (strip_prefix part t)) [
  | inl q ↦
      let no : none ≡ some more = sym (rest_of-missing true part parts t q) ∙ e in
      (let bad : ⊥ = cc in elim bad [ ])
  | inr (rest, q) ↦ (
    rest,
    append-strip_prefix part t rest q,
    rest_of-Made false parts rest more (sym (rest_of-found true part parts t rest q) ∙ e),
  )
]
rest_of-Made false (part ∷ parts) t more e = elim (Option-cases (behind part t)) [
  | inl q ↦
      let no : none ≡ some more = sym (rest_of-missing false part parts t q) ∙ e in
      (let bad : ⊥ = cc in elim bad [ ])
  | inr (rest, q) ↦
      let (run, at) = behind-run part t rest q in
      (
        run,
        rest,
        at,
        rest_of-Made false parts rest more (sym (rest_of-found false part parts t rest q) ∙ e),
      )
]

-- More text in front hides no part.
Made-rest_of :
    (parts : List Text) (w t more : Text)
    → Made false parts more t
    → (r : Text) × (rest_of false parts (w ++ t) ≡ some r)
unfolding rest_of
Made-rest_of [] w t more h = (w ++ t, refl)
Made-rest_of (part ∷ parts) w t more (run, rest, at, h) =
    let (r, v, there, behind_it) = behind-first part (w ++ run) rest in
    let whole : (w ++ run) ++ (part ++ rest) ≡ w ++ t =
      append_assoc w run (part ++ rest) ∙ ap (λ u. w ++ u) (sym at) in
    let (q, e) = Made-rest_of parts v rest more h in
    (
      q,
      rest_of-found false part parts (w ++ t) r (ap (behind part) (sym whole) ∙ there)
          ∙ (ap (rest_of false parts) behind_it ∙ e),
    )

Made-rest_of_any :
    (anchored : Bool) (parts : List Text) (t more : Text)
    → Made anchored parts more t
    → (r : Text) × (rest_of anchored parts t ≡ some r)
unfolding rest_of
Made-rest_of_any false parts t more h = Made-rest_of parts [] t more h
Made-rest_of_any true [] t more h = (t, refl)
Made-rest_of_any true (part ∷ parts) t more (rest, at, h) =
    let (q, e) = Made-rest_of parts [] rest more h in
    (
      q,
      rest_of-found true part parts t rest
            (ap (strip_prefix part) at ∙ strip_prefix-append part rest)
          ∙ e,
    )

matches-missing :
    (p : HeaderPattern) (t : Text)
    → rest_of (not p.open_start) p.parts t ≡ none
    → matches p t ≡ false
unfolding matches
matches-missing p t e = rw (matches, e) refl

matches-rest :
    (p : HeaderPattern) (t rest : Text)
    → rest_of (not p.open_start) p.parts t ≡ some rest
    → matches p t ≡ p.open_end || is_empty rest
unfolding matches
matches-rest p t rest e = rw (matches, e) refl

-- A header is dropped only for a pattern that stands for its name: the parts of the pattern in
-- order, any run of characters for each `*`, nothing else at an end without one.
pub matches-Stands : (p : HeaderPattern) (t : Text) → matches p t ≡ true → Stands p t
matches-Stands p t e = elim (Option-cases (rest_of (not p.open_start) p.parts t)) [
  | inl q ↦
      let no : true ≡ false = sym e ∙ matches-missing p t q in (let bad : ⊥ = cc in elim bad [ ])
  | inr (rest, q) ↦ (
    rest,
    rest_of-Made (not p.open_start) p.parts t rest q,
    ends rest (sym (matches-rest p t rest q) ∙ e),
  )
]
  where
    ends : (rest : Text) → p.open_end || is_empty rest ≡ true → (p.open_end ≡ true) ⊎ (rest ≡ [])
    ends [] h = inr refl
    ends (c ∷ rest) h = inl (ground (arith, h))

-- Every name that a pattern with a `*` at its end stands for is found, although the search takes
-- the first place of each part.
pub Stands-matches :
    (p : HeaderPattern) (t : Text) → p.open_end ≡ true → Stands p t → matches p t ≡ true
Stands-matches p t open_ended (more, made, last) =
    let (r, e) = Made-rest_of_any (not p.open_start) p.parts t more made in
    matches-rest p t r e ∙ rw open_ended refl
