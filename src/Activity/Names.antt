-- ===== src/Activity/Names.antt =====
-- src/activity/names.rs: a bounded tally of model names that no route has. A time is a number; the
-- argument `cut` is `text::cut` at 200 characters.
pub mod Entries
mod Tests
use anthroxy.Prelude.{
  ℕ, zero, suc, ◌+◌, ◌-◌, ◌%◌, ◌^◌, ◌≤◌, ◌<◌, min, ◌==◌, ◌≡◌, ◌∙◌, ap, sym, refl, Bool, true, false,
  not, ◌||◌, ◌&&◌, Option, none, some, List, [], ◌∷◌, if◌then◌else◌, any, all, take, length,
  length-take, Text, text_eq, text_eq_iff, text_eq_self, arith, Bool-cases, Option-cases, inl, inr,
}

-- `NAMES`
abbrev pub names_kept : ℕ
names_kept = 100

pub record NameCount : Type 0 where
  pub name : Text
  pub unknown : ℕ
  pub defaulted : ℕ
  pub last_seen : ℕ

-- `NameTally`
abbrev pub NameTally : Type 0
NameTally = List NameCount

-- `position` and `remove`: the entry of a name, and the others.
unfoldable pub taken_out : Text → NameTally → Option (NameCount × NameTally)
unfolding text_eq
taken_out name [] = none
taken_out name (n ∷ ns) =
    let later = taken_out name ns in
    if text_eq n.name name
    then some (n, ns)
    else elim later [ none ↦ none | some (found, others) ↦ some (found, n ∷ others) ]

-- `Vec::pop` at the limit.
abbrev pub room : NameTally → NameTally
room ns = if length ns == names_kept then take (length ns - 1) ns else ns

-- `+= 1` on a `u64`.
abbrev pub count_unknown : NameCount → NameCount
count_unknown n = record n { unknown = (n.unknown + 1) % 2 ^ 64 }

abbrev pub count_defaulted : NameCount → NameCount
count_defaulted n = record n { defaulted = (n.defaulted + 1) % 2 ^ 64 }

module _ (cut : Text → Text) (now : ℕ) where
  -- The entry of a name not seen before.
  abbrev pub first_seen : Text → NameCount
  first_seen name = record { name = name; unknown = 0; defaulted = 0; last_seen = now }

  -- `seen`, and what is counted on the entry that it returns.
  unfoldable pub seen : (NameCount → NameCount) → Text → NameTally → NameTally
  unfolding taken_out
  seen count text ns =
      let name = cut text in
      elim (taken_out name ns) [
        | some (entry, others) ↦ count (record entry { last_seen = now }) ∷ others
        | none ↦ count (first_seen name) ∷ room ns
      ]

  unfoldable pub unknown_name : Text → NameTally → NameTally
  unfolding seen
  unknown_name text ns = seen count_unknown text ns

  unfoldable pub defaulted_name : Text → NameTally → NameTally
  unfolding seen
  defaulted_name text ns = seen count_defaulted text ns
