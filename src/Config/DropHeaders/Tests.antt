-- ===== src/Config/DropHeaders/Tests.antt =====
-- Runs of the patterns.
use anthroxy.Prelude.{◌≡◌, refl, Bool, true, false, [], ◌∷◌, Text, ascii, ok, split_on, inl}
use anthroxy.Config.DropHeaders.{HeaderPattern, one, parse, claude_code_preset, drops, matches}
use anthroxy.Config.DropHeaders.Globs.{Stands, matches-Stands, Stands-matches}

abbrev any_name : Text → Bool
any_name t = true

-- `x-*-id*`
abbrev ids : HeaderPattern
ids = record { parts = ascii "x-" ∷ ascii "-id" ∷ []; open_start = false; open_end = true }

reads : one any_name (ascii "X-*-Id*") ≡ ok ids
unfolding one split_on
reads = refl

-- The preset drops the headers of the SDK.
preset :
    (elim (parse any_name claude_code_preset) [
      | ok ps ↦ drops ps (ascii "x-stainless-os")
      | _ ↦ false
    ])
    ≡ true
unfolding parse split_on drops
preset = refl

-- `*-id` stands for `a-id-id`, and the search stops at the first `-id`.
misses :
    matches
      (record { parts = ascii "-id" ∷ []; open_start = true; open_end = false })
      (ascii "a-id-id")
    ≡ false
unfolding matches
misses = refl

found : matches ids (ascii "x-a-id-b") ≡ true
unfolding matches
found = refl

matches-Stands_example : Stands ids (ascii "x-a-id-b")
matches-Stands_example = matches-Stands ids (ascii "x-a-id-b") found

Stands-matches_example : matches ids (ascii "x-a-id-b") ≡ true
Stands-matches_example =
    Stands-matches ids (ascii "x-a-id-b") refl
      (ascii "-b", (ascii "a-id-b", refl, (ascii "a", ascii "-b", refl, refl)), inl refl)
