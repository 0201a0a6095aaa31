-- ===== src/Activity/Names/Entries.antt =====
-- The tally of src/activity/names.rs keeps its bound and its entries.
use anthroxy.Prelude.{
  ℕ, zero, suc, ◌-◌, ◌≤◌, min, ◌==◌, ◌≡◌, ap, sym, refl, Bool, true, false, ◌||◌, Option, none,
  some, [], ◌∷◌, if◌then◌else◌, any, take, length, length-take, Text, text_eq, text_eq_iff,
  text_eq_self, arith, Bool-cases, Option-cases, inl, inr,
}
use anthroxy.Activity.Names.{
  names_kept, NameCount, NameTally, taken_out, room, count_unknown, count_defaulted, first_seen,
  seen, unknown_name, defaulted_name,
}

-- The entry of a name.
abbrev pub entry_of : Text → NameTally → Option NameCount
entry_of name [] = none
entry_of name (n ∷ ns) = if text_eq n.name name then some n else entry_of name ns

abbrev pub is_listed : Text → NameTally → Bool
is_listed name ns = any (λ n. text_eq n.name name) ns

-- Each name once.
abbrev pub Distinct : NameTally → Type 0
Distinct [] = Unit
Distinct (n ∷ ns) = (is_listed n.name ns ≡ false) × Distinct ns

pub record IsSound (ns : NameTally) : Type 0 where
  pub few : length ns ≤ names_kept
  pub distinct : Distinct ns

taken_out-none :
    (name : Text) (ns : NameTally) → taken_out name ns ≡ none → is_listed name ns ≡ false
unfolding taken_out
taken_out-none name [] e = refl
taken_out-none name (n ∷ ns) e = elim (Option-cases (taken_out name ns)) [
  | inl q ↦ ground (arith, e, q, taken_out-none name ns q)
  | inr (p, q) ↦ ground (arith, e, q)
]

-- What taking an entry out does.
record Taken (name : Text) (ns : NameTally) (found : NameCount) (others : NameTally) : Type 0 where
  is_it : text_eq found.name name ≡ true
  one_less : length ns ≡ suc (length others)
  listed : (m : Text) → is_listed m ns ≡ text_eq found.name m || is_listed m others
  apart : Distinct ns → (is_listed found.name others ≡ false) × Distinct others
  same : (m : Text) → text_eq found.name m ≡ false → entry_of m ns ≡ entry_of m others
  its_entry : entry_of name ns ≡ some found

taken_out-Taken :
    (name : Text) (ns : NameTally) (found : NameCount) (others : NameTally)
    → taken_out name ns ≡ some (found, others)
    → Taken name ns found others
unfolding taken_out
taken_out-Taken name [] found others e = let no : ⊥ = cc in elim no [ ]
taken_out-Taken name (n ∷ ns) found others e = elim (Bool-cases (text_eq n.name name)) [
  | inl h ↦
      let first : n ≡ found = ground (arith, e, h) in
      let rest : ns ≡ others = ground (arith, e, h) in
      rw⁻¹ (first, rest)
        (record {
          is_it = h;
          one_less = refl;
          listed = λ m. refl;
          apart = λ d. d;
          same = λ m no. rw no refl;
          its_entry = rw h refl;
        })
  | inr h ↦ elim (Option-cases (taken_out name ns)) [
    | inl q ↦ let no : ⊥ = ground (arith, e, q, h) in elim no [ ]
    | inr ((f, others'), q) ↦
        let t = taken_out-Taken name ns f others' q in
        let unlike : text_eq n.name f.name ≡ false = rw ((text_eq_iff f.name name).0 t.is_it) h in
        let it : f ≡ found = ground (arith, e, q, h) in
        let rest : n ∷ others' ≡ others = ground (arith, e, q, h) in
        rw⁻¹ (it, rest)
          (record {
            is_it = t.is_it;
            one_less = ap suc t.one_less;
            listed = λ m. ground (arith, t.listed m);
            apart = λ d. (
              ground (arith, unlike, (t.apart d.1).0),
              (ground (arith, d.0, t.listed n.name), (t.apart d.1).1),
            );
            same = λ m no. ground (arith, t.same m no);
            its_entry = rw h t.its_entry;
          })
  ]
]

-- What `room` leaves is at most what there was.
take-listed :
    (m : Text) (k : ℕ) (ns : NameTally) → is_listed m ns ≡ false → is_listed m (take k ns) ≡ false
take-listed m zero ns e = refl
take-listed m (suc k) [] e = refl
take-listed m (suc k) (n ∷ ns) e = ground (arith, e, take-listed m k ns)

take-Distinct : (k : ℕ) (ns : NameTally) → Distinct ns → Distinct (take k ns)
take-Distinct zero ns d = tt
take-Distinct (suc k) [] d = tt
take-Distinct (suc k) (n ∷ ns) d = (take-listed n.name k ns d.0, take-Distinct k ns d.1)

room_lem :
    (name : Text) (ns : NameTally)
    → IsSound ns
    → is_listed name ns ≡ false
    → (suc (length (room ns)) ≤ names_kept)
      × (is_listed name (room ns) ≡ false)
      × Distinct (room ns)
room_lem name ns s e = elim (Bool-cases (length ns == names_kept)) [
  | inl full ↦
      let short : length (take (length ns - 1) ns) ≡ min (length ns - 1) (length ns) =
        length-take (length ns - 1) ns in
      rw (room, full)
        (
          ground (arith, full, short),
          take-listed name (length ns - 1) ns e,
          take-Distinct (length ns - 1) ns s.distinct,
        )
  | inr free ↦ rw (room, free) (ground (arith, free, s.few), e, s.distinct)
]

unlisted-entry : (m : Text) (ns : NameTally) → is_listed m ns ≡ false → entry_of m ns ≡ none
unlisted-entry m [] e = refl
unlisted-entry m (n ∷ ns) e = ground (arith, e, unlisted-entry m ns)

module _ (cut : Text → Text) (now : ℕ) where
  abbrev pub known_or_new : Text → Option NameCount → NameCount
  known_or_new name none = first_seen cut now name
  known_or_new name (some n) = record n { last_seen = now }

  module _ (count : NameCount → NameCount) (keeps : (n : NameCount) → (count n).name ≡ n.name) where
    seen-IsSound :
        (text : Text) (ns : NameTally) → IsSound ns → IsSound (seen cut now count text ns)
    unfolding seen
    seen-IsSound text ns s = elim (Option-cases (taken_out (cut text) ns)) [
      | inl e ↦
          let (few, new, apart) = room_lem (cut text) ns s (taken_out-none (cut text) ns e) in
          rw (seen, e)
            (record {
              few = few;
              distinct = (rw (keeps (first_seen cut now (cut text))) new, apart);
            })
      | inr ((f, others), e) ↦
          let t = taken_out-Taken (cut text) ns f others e in
          rw (seen, e)
            (record {
              few = omega (arith, s.few, t.one_less);
              distinct = (
                rw (keeps (record f { last_seen = now })) (t.apart s.distinct).0,
                (t.apart s.distinct).1,
              );
            })
    ]

    seen-entry :
        (text : Text) (ns : NameTally)
        → entry_of (cut text) (seen cut now count text ns)
          ≡ some (count (known_or_new (cut text) (entry_of (cut text) ns)))
    unfolding seen
    seen-entry text ns = elim (Option-cases (taken_out (cut text) ns)) [
      | inl e ↦
          let n = first_seen cut now (cut text) in
          let it : text_eq (count n).name (cut text) ≡ true =
            rw (keeps n) (text_eq_self (cut text)) in
          rw (seen, e, it, unlisted-entry (cut text) ns (taken_out-none (cut text) ns e)) refl
      | inr ((f, others), e) ↦
          let t = taken_out-Taken (cut text) ns f others e in
          let n = record f { last_seen = now } in
          let it : text_eq (count n).name (cut text) ≡ true = rw (keeps n) t.is_it in
          rw (seen, e, it, t.its_entry) refl
    ]

    seen-others :
        (text m : Text) (ns : NameTally)
        → text_eq (cut text) m ≡ false
        → entry_of m (seen cut now count text ns)
          ≡ entry_of m (if is_listed (cut text) ns then ns else room ns)
    unfolding seen
    seen-others text m ns other = elim (Option-cases (taken_out (cut text) ns)) [
      | inl e ↦
          let n = first_seen cut now (cut text) in
          let no : text_eq (count n).name m ≡ false = rw (keeps n) other in
          rw (seen, e, no, taken_out-none (cut text) ns e) refl
      | inr ((f, others), e) ↦
          let t = taken_out-Taken (cut text) ns f others e in
          let n = record f { last_seen = now } in
          let same : f.name ≡ cut text = (text_eq_iff f.name (cut text)).0 t.is_it in
          let apart : text_eq f.name m ≡ false = rw same other in
          let no : text_eq (count n).name m ≡ false = rw (keeps n) apart in
          let known : is_listed (cut text) ns ≡ true =
            ground (arith, t.listed (cut text), t.is_it) in
          rw (seen, e, no, known) (sym (t.same m apart))
    ]

  -- Both ways to count a name keep the tally at NAMES entries at most, each name once.
  pub tally-IsSound :
      (text : Text) (ns : NameTally)
      → IsSound ns
      → IsSound (unknown_name cut now text ns) × IsSound (defaulted_name cut now text ns)
  unfolding unknown_name defaulted_name
  tally-IsSound text ns s = (
    seen-IsSound count_unknown (λ n. refl) text ns s,
    seen-IsSound count_defaulted (λ n. refl) text ns s,
  )

  -- A name counted as unknown has one more on its entry, or a new entry with one; every other name
  -- keeps its entry, but the last of a full tally when the name is new to it.
  pub unknown_name_lem :
      (text m : Text) (ns : NameTally)
      → text_eq (cut text) m ≡ false
      → (entry_of (cut text) (unknown_name cut now text ns)
          ≡ some (count_unknown (known_or_new (cut text) (entry_of (cut text) ns))))
        × (entry_of m (unknown_name cut now text ns)
            ≡ entry_of m (if is_listed (cut text) ns then ns else room ns))
  unfolding unknown_name
  unknown_name_lem text m ns other = (
    seen-entry count_unknown (λ n. refl) text ns,
    seen-others count_unknown (λ n. refl) text m ns other,
  )
