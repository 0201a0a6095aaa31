-- ===== src/OpenAi/Chunk/Tests.antt =====
-- Runs of the decoder's tool call deltas.
use anthroxy.Prelude.{◌≡◌, refl, some, none, [], ◌∷◌, Text, ascii, find, put, last_key, ℕ}
use anthroxy.Ir.{tool_call_start, tool_call_delta}
use anthroxy.OpenAi.{ToolCall}
use anthroxy.OpenAi.Chunk.Calls.{new, follow}
use anthroxy.OpenAi.Chunk.Started.{Tells, new-Tracks, follow-Tells}

abbrev uuid : ℕ → Text
uuid n = ascii "u"

abbrev unnamed_part : ToolCall
unnamed_part = record { index = none; id = some (ascii "a"); name = none; arguments = ascii "{" }

abbrev named_part : ToolCall
named_part = record { index = none; id = none; name = some (ascii "read"); arguments = ascii "}" }

-- A name without an index opens another call.
named_apart :
    (follow uuid named_part (follow uuid unnamed_part new).0).1
    ≡ tool_call_start 1 (ascii "call_u") (ascii "read") ∷ tool_call_delta 1 (ascii "}") ∷ []
unfolding follow find put last_key
named_apart = refl

abbrev named_first : ToolCall
named_first = record named_part { index = some 0 }

joined :
    (follow uuid named_first (follow uuid unnamed_part new).0).1
    ≡ tool_call_start 0 (ascii "a") (ascii "read") ∷ tool_call_delta 0 (ascii "{}") ∷ []
unfolding follow find put last_key
joined = refl

follow-Tells_example : Tells (follow uuid named_first new) []
follow-Tells_example = follow-Tells uuid named_first new [] new-Tracks
