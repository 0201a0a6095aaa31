-- ===== src/Upstream/Headers/Flags.antt =====
-- What `merge_beta` makes of the flags.
use anthroxy.Prelude.{
  ◌≡◌, refl, ap, ◌∙◌, true, false, Bool, false, ◌&&◌, ◌||◌, ◌==◌, not, any, text_eq→eq, none, some,
  List, [], ◌∷◌, ◌++◌, map, is_empty, filter, Text, ascii, text_eq, text_eq_iff, split_on, trim,
  join, All, All-append, IsFreeOf, split_on-All, split_on-join, all-trim, arith, Bool-cases,
  Option-cases, inl, inr,
}
use anthroxy.Http.{Http}
use anthroxy.Upstream.Headers.{is_one_of, push_flag, push_flags, flags_of, listed, merge_beta}

-- No text is there twice.
pub IsUnique : List Text → Type 0
IsUnique [] = Unit
IsUnique (t ∷ ts) = (is_one_of ts t ≡ false) × IsUnique ts

is_one_of-append :
    (xs : List Text) (y n : Text) → is_one_of (xs ++ y ∷ []) n ≡ is_one_of xs n || text_eq n y
unfolding is_one_of
is_one_of-append [] y n = ground arith
is_one_of-append (x ∷ xs) y n = ground (arith, is_one_of-append xs y n)

is_one_of-both :
    (xs ys : List Text) (n : Text) → is_one_of (xs ++ ys) n ≡ is_one_of xs n || is_one_of ys n
unfolding is_one_of
is_one_of-both [] ys n = refl
is_one_of-both (x ∷ xs) ys n = ground (arith, is_one_of-both xs ys n)

IsUnique-append :
    (xs : List Text) (y : Text) → IsUnique xs → is_one_of xs y ≡ false → IsUnique (xs ++ y ∷ [])
unfolding IsUnique is_one_of
IsUnique-append [] y u fresh = (refl, tt)
IsUnique-append (x ∷ xs) y (no_x, u) fresh = (
  ground (arith, is_one_of-append xs y x, no_x, fresh, text_eq_iff x y, text_eq_iff y x),
  IsUnique-append xs y u (ground (arith, fresh)),
)

push_flag-IsUnique : (flags : List Text) (f : Text) → IsUnique flags → IsUnique (push_flag flags f)
unfolding push_flag
push_flag-IsUnique flags f u = elim (Bool-cases (is_one_of flags f)) [
  | inl there ↦ simp there u
  | inr new ↦ simp new (IsUnique-append flags f u new)
]

push_flags-IsUnique : (flags more : List Text) → IsUnique flags → IsUnique (push_flags flags more)
unfolding push_flags
push_flags-IsUnique flags [] u = u
push_flags-IsUnique flags (f ∷ more) u =
    push_flags-IsUnique (push_flag flags f) more (push_flag-IsUnique flags f u)

is_one_of-push_flags :
    (flags more : List Text) (n : Text)
    → is_one_of (push_flags flags more) n ≡ is_one_of flags n || is_one_of more n
unfolding push_flags push_flag is_one_of
is_one_of-push_flags flags [] n = ground arith
is_one_of-push_flags flags (f ∷ more) n = ground (
  arith,
  is_one_of-push_flags (push_flag flags f) more n,
  is_one_of-append flags f n,
  text_eq_iff n f,
)

push_flags-All :
    (P : Text → Type 0) (flags more : List Text)
    → All P flags
    → All P more
    → All P (push_flags flags more)
unfolding push_flags push_flag
push_flags-All P flags [] a b = a
push_flags-All P flags (f ∷ more) a b = elim (Bool-cases (is_one_of flags f)) [
  | inl there ↦ simp there (push_flags-All P flags more a b.1)
  | inr new ↦
      simp new
        (push_flags-All P (flags ++ f ∷ []) more (All-append P flags (f ∷ []) a (b.0, tt)) b.1)
]

trimmed-free :
    (pieces : List Text)
    → All (IsFreeOf 44) pieces
    → All (IsFreeOf 44) (filter (λ flag. not (is_empty flag)) (map trim pieces))
trimmed-free [] a = tt
trimmed-free (p ∷ pieces) a = elim (Bool-cases (is_empty (trim p))) [
  | inl e ↦ simp e (trimmed-free pieces a.1)
  | inr e ↦ simp e (all-trim (λ c. not (c == 44)) p a.0, trimmed-free pieces a.1)
]

-- The client has the flag: a comma-separated piece of one of its readable values, and not blank.
unfoldable pub has_flag : Text → Text → Bool
has_flag f value = not (is_empty f) && any (λ piece. text_eq f (trim piece)) (split_on 44 value)

is_one_of-pieces :
    (pieces : List Text) (f : Text)
    → is_one_of (filter (λ flag. not (is_empty flag)) (map trim pieces)) f
      ≡ (not (is_empty f) && any (λ piece. text_eq f (trim piece)) pieces)
unfolding is_one_of
is_one_of-pieces [] f = ground arith
is_one_of-pieces (p ∷ pieces) f = elim (Bool-cases (text_eq f (trim p))) [
  | inl same ↦
      let eq : f ≡ trim p = text_eq→eq f (trim p) same in
      let blank : is_empty f ≡ is_empty (trim p) = ap (λ t. is_empty t) eq in
      ground (arith, same, blank, is_one_of-pieces pieces f)
  | inr other ↦ ground (arith, other, is_one_of-pieces pieces f)
]

is_one_of-flags_of : (value f : Text) → is_one_of (flags_of value) f ≡ has_flag f value
unfolding flags_of has_flag
is_one_of-flags_of value f = is_one_of-pieces (split_on 44 value) f

-- The flags of a value have no comma.
flags_of-free : (value : Text) → All (IsFreeOf 44) (flags_of value)
unfolding flags_of
flags_of-free value = trimmed-free (split_on 44 value) (split_on-All 44 value)

-- Flags without a comma, of which there is one, are what their list is split into.
split_on-flags :
    (flags : List Text) (f : Text)
    → All (IsFreeOf 44) flags
    → is_one_of flags f ≡ true
    → split_on 44 (join (ascii ",") flags) ≡ flags
unfolding is_one_of
split_on-flags [] f free there = let no : ⊥ = cc in elim no [ ]
split_on-flags (flag ∷ flags) f free there = split_on-join 44 flag flags free

module _ (h : Http) where
  listed-free : (values : List Text) → All (IsFreeOf 44) (listed h values)
  unfolding listed
  listed-free [] = tt
  listed-free (value ∷ values) = elim (Option-cases (h.to_str value)) [
    | inl e ↦ simp (e, listed) (listed-free values)
    | inr (t, e) ↦
        simp (e, listed)
          (All-append (IsFreeOf 44) (flags_of t) (listed h values) (flags_of-free t)
            (listed-free values))
  ]

  -- The client has the flag in one of its values that are text.
  unfoldable pub client_has : Text → List Text → Bool
  unfolding has_flag
  client_has f [] = false
  client_has f (value ∷ values) =
      let rest = client_has f values in
      elim (h.to_str value) [ none ↦ rest | some t ↦ has_flag f t || rest ]

  is_one_of-listed :
      (values : List Text) (f : Text) → is_one_of (listed h values) f ≡ client_has f values
  unfolding listed client_has is_one_of
  is_one_of-listed [] f = refl
  is_one_of-listed (value ∷ values) f = elim (Option-cases (h.to_str value)) [
    | inl e ↦ simp (e, listed, client_has) (is_one_of-listed values f)
    | inr (t, e) ↦
        simp (e, listed, client_has)
          (is_one_of-both (flags_of t) (listed h values) f
            ∙ ground (arith, is_one_of-flags_of t f, is_one_of-listed values f))
  ]

  -- What is split at the commas of a merged value, when a flag is added and no added flag has a comma:
  -- no flag twice, and exactly the added flags and those that stand, trimmed and not blank, between the
  -- commas of any of the client's values that are text.
  pub merge_beta-round :
      (existing : List Text) (flag : Text) (extra : List Text)
      → All (IsFreeOf 44) (flag ∷ extra)
      → IsUnique (split_on 44 (merge_beta h existing (flag ∷ extra)))
        × ((f : Text)
            → is_one_of (split_on 44 (merge_beta h existing (flag ∷ extra))) f
              ≡ client_has f existing || is_one_of (flag ∷ extra) f)
  unfolding merge_beta is_one_of IsUnique
  merge_beta-round existing flag extra free =
      let all_flags = listed h existing ++ flag ∷ extra in
      let there : (f : Text)
          → is_one_of (push_flags [] all_flags) f
            ≡ is_one_of (listed h existing) f || is_one_of (flag ∷ extra) f =
        λ f.
          is_one_of-push_flags [] all_flags f
          ∙ is_one_of-both (listed h existing) (flag ∷ extra) f in
      let same : split_on 44 (join (ascii ",") (push_flags [] all_flags))
          ≡ push_flags [] all_flags =
        split_on-flags (push_flags [] all_flags) flag
          (push_flags-All (IsFreeOf 44) [] all_flags tt (
            All-append (IsFreeOf 44) (listed h existing) (flag ∷ extra) (listed-free existing)
              free))
          (ground (arith, there flag, text_eq_iff flag flag)) in
      rw same (
        push_flags-IsUnique [] all_flags tt,
        λ f. there f ∙ ap (λ b. b || is_one_of (flag ∷ extra) f) (is_one_of-listed existing f),
      )
