-- ===== src/Activity/Names/Tests.antt =====
-- Runs of the tally.
use anthroxy.Prelude.{◌≡◌, refl, [], ◌∷◌, Text, ascii, text_eq}
use anthroxy.Activity.Names.{NameCount, NameTally, unknown_name}

abbrev cut : Text → Text
cut t = t

abbrev gpt : NameCount
gpt = record { name = ascii "gpt"; unknown = 1; defaulted = 0; last_seen = 5 }

abbrev llama : NameCount
llama = record { name = ascii "llama"; unknown = 0; defaulted = 2; last_seen = 4 }

abbrev tally : NameTally
tally = gpt ∷ llama ∷ []

counted :
    unknown_name cut 9 (ascii "gpt") tally
    ≡ record { name = ascii "gpt"; unknown = 2; defaulted = 0; last_seen = 9 } ∷ llama ∷ []
unfolding unknown_name text_eq
counted = refl
