-- ===== src/Upstream/Bodies/Tests.antt =====
-- Runs of the reading.
use anthroxy.Prelude.{◌≡◌, [], ◌∷◌, map, ascii, ok}
use anthroxy.Upstream.Bodies.{read_all, finished_with, read_all-chunks}

read_all-chunks_example :
    read_all (map ok (ascii "ab" ∷ ascii "c" ∷ []))
    ≡ (ok (ascii "abc"), finished_with (ascii "abc"))
read_all-chunks_example = read_all-chunks (ascii "ab" ∷ ascii "c" ∷ [])
