-- ===== src/Config/DropHeaders.antt =====
-- src/config/drop_headers.rs: the patterns of headers that a backend never sees. Whether text is a
-- header name is what the crate http says, and is the argument `is_header_name`.
pub mod Globs
mod Tests
use anthroxy.Prelude.{
  ℕ, zero, suc, ◌+◌, ◌-◌, ◌<◌, ◌==◌, ◌≡◌, refl, Bool, true, false, ◌&&◌, ◌||◌, not, Option, none,
  some, List, [], ◌∷◌, ◌++◌, map, if◌then◌else◌, is_empty, any, filter, ltb, leb, Text, ascii,
  text_eq, strip_prefix, split_on, starts_with, drop, length, Result, ok, err,
}

-- `CLAUDE_CODE`
abbrev pub claude_code : List Text
claude_code =
    ascii "x-stainless-*"
    ∷ ascii "x-app"
    ∷ ascii "anthropic-dangerous-direct-browser-access"
    ∷ ascii "x-claude-code-session-id"
    ∷ []

-- `CLAUDE_CODE_PRESET`
abbrev pub claude_code_preset : Text
claude_code_preset = ascii "@claude-code"

pub data PatternError : Type 0 where
  empty : PatternError
  unknown_preset matches_everything not_a_header_name : Text → PatternError

pub record HeaderPattern : Type 0 where
  pub parts : List Text
  pub open_start : Bool
  pub open_end : Bool

-- `to_ascii_lowercase`
abbrev pub lower : Text → Text
lower t = map (λ c. if leb 65 c && leb c 90 then c + 32 else c) t

abbrev concat : List Text → Text
concat [] = []
concat (p ∷ ps) = p ++ concat ps

-- The last of the segments, of which there is always one.
abbrev last_empty : List Text → Bool
last_empty [] = true
last_empty (s ∷ []) = is_empty s
last_empty (s ∷ t ∷ ss) = last_empty (t ∷ ss)

abbrev first_empty : List Text → Bool
first_empty [] = true
first_empty (s ∷ ss) = is_empty s

module _ (is_header_name : Text → Bool) where
  -- `HeaderPattern::one`; 42 is `*`.
  unfoldable pub one : Text → Result PatternError HeaderPattern
  unfolding split_on
  one entry =
      let segments = split_on 42 (lower entry) in
      let parts = filter (λ p. not (is_empty p)) segments in
      if is_empty parts
      then err (matches_everything entry)
      else (if is_header_name (concat parts)
          then ok (record {
            parts = parts;
            open_start = first_empty segments;
            open_end = last_empty segments;
          })
          else err (not_a_header_name entry))

  -- The patterns of the preset; `expect` has none fail.
  unfoldable pub each : List Text → List HeaderPattern
  unfolding one
  each [] = []
  each (entry ∷ entries) = elim (one entry) [ err e ↦ each entries | ok p ↦ p ∷ each entries ]

  -- `HeaderPattern::parse`; the bytes after `@` are compared with those of the preset.
  unfoldable pub parse : Text → Result PatternError (List HeaderPattern)
  unfolding each strip_prefix text_eq
  parse entry = if is_empty entry then err empty else elim (strip_prefix (ascii "@") entry) [
    | some preset ↦
        if text_eq preset (drop 1 claude_code_preset)
        then ok (each claude_code)
        else err (unknown_preset entry)
    | none ↦ elim (one entry) [ err e ↦ err e | ok p ↦ ok (p ∷ []) ]
  ]

-- `str::find`: what stands behind the first place where the part is.
unfoldable pub behind : Text → Text → Option Text
unfolding strip_prefix
behind part [] = strip_prefix part []
behind part (c ∷ t) =
    let later = behind part t in
    elim (strip_prefix part (c ∷ t)) [ some rest ↦ some rest | none ↦ later ]

-- What stands behind the part where a round finds it.
abbrev pub found : Bool → Text → Text → Option Text
found anchored part rest = if anchored then strip_prefix part rest else behind part rest

-- The rounds of the loop of `matches`; `anchored` is that of the first.
unfoldable pub rest_of : Bool → List Text → Text → Option Text
unfolding behind strip_prefix
rest_of anchored [] rest = some rest
rest_of anchored (part ∷ parts) rest = elim (found anchored part rest) [
  | none ↦ none
  | some rest' ↦ rest_of false parts rest'
]

-- `HeaderPattern::matches`
unfoldable pub matches : HeaderPattern → Text → Bool
unfolding rest_of
matches p name = elim (rest_of (not p.open_start) p.parts name) [
  | none ↦ false
  | some rest ↦ p.open_end || is_empty rest
]

-- `DropHeaders::matches`
unfoldable pub drops : List HeaderPattern → Text → Bool
unfolding matches
drops patterns name = any (λ p. matches p name) patterns
