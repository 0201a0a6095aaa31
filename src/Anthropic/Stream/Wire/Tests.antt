-- ===== src/Anthropic/Stream/Wire/Tests.antt =====
-- Two frames, written and read in two chunks.
use mathlib.Core.List.{flatten}
use anthroxy.Prelude.{
  ◌≡◌, refl, List, [], ◌∷◌, ◌++◌, Text, ascii, ok, All, is_utf8, arith, position,
}
use anthroxy.Sse.{newline, fresh, feed}
use anthroxy.Sse.Chunks.{feed_all, Fits}
use anthroxy.Anthropic.Stream.Wire.{frame_lines, frames_text, IsWritten, feed_all-frames_text}

abbrev written : List (Text × Text)
written = (ascii "ping", ascii "{}") ∷ (ascii "message_stop", ascii "{a}") ∷ []

abbrev cuts : List Text
cuts =
    (ascii "event: ping" ++ (newline ∷ ascii "da"))
    ∷ (ascii "ta: {}"
        ++ (newline
            ∷ newline
            ∷ (ascii "event: message_stop"
                ++ (newline ∷ (ascii "data: {a}" ++ (newline ∷ newline ∷ []))))))
    ∷ []

written-IsWritten : All IsWritten written
unfolding IsWritten frame_lines is_utf8
written-IsWritten = ((refl, refl, refl, refl, refl), ((refl, refl, refl, refl, refl), tt))

cuts-frames_text : flatten cuts ≡ frames_text written
unfolding frames_text flatten
cuts-frames_text = refl

cuts-Fits : Fits fresh cuts
unfolding feed position
cuts-Fits = (omega arith, (omega arith, tt))

feed_all-frames_text_example :
    feed_all fresh cuts
    ≡ ok (record { payload = ascii "{}" } ∷ record { payload = ascii "{a}" } ∷ [])
feed_all-frames_text_example =
    feed_all-frames_text written cuts written-IsWritten cuts-frames_text cuts-Fits
