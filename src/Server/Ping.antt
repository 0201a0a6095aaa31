-- ===== src/Server/Ping.antt =====
-- src/server/ping.rs: keep-alive events on a stream that has gone quiet. A poll is given what the
-- inner stream answers and how many times in a row the timer is found to have run out.
mod Tests
use anthroxy.Prelude.{
  ℕ, zero, suc, ◌+◌, ◌-◌, ◌≡◌, ◌≤◌, ◌∙◌, ap, sym, refl, Bool, true, false, ◌&&◌, ◌||◌, not, Option,
  none, some, List, [], ◌∷◌, ◌++◌, if◌then◌else◌, is_empty, length, drop, Text, ascii, text_eq,
  arith, append_assoc, append-nil, length-append, length-drop, drop-drop, drop-append, Bool-cases,
  inl, inr,
}

-- `PING`
abbrev pub ping : Text
ping =
    ascii "event: ping"
    ++ (10
        ∷ (ascii "data: {"
            ++ (34
                ∷ (ascii "type"
                    ++ (34
                        ∷ (ascii ": "
                            ++ (34 ∷ (ascii "ping" ++ (34 ∷ (ascii "}" ++ (10 ∷ 10 ∷ [])))))))))))

-- `Pings`, without the inner stream and the timer.
pub record Pings : Type 0 where
  pub tail : Text

abbrev pub new : Pings
new = record { tail = [] }

-- `slice::ends_with`
unfoldable pub ends_with : Text → Text → Bool
unfolding text_eq
ends_with t end = text_eq (drop (length t - length end) t) end

unfoldable pub at_boundary : Pings → Bool
unfolding ends_with
at_boundary p =
    is_empty p.tail
    || (ends_with p.tail (10 ∷ 10 ∷ []) || ends_with p.tail (13 ∷ 10 ∷ 13 ∷ 10 ∷ []))

unfoldable pub relayed : Text → Pings → Pings
relayed bytes p = let tail = p.tail ++ bytes in record { tail = drop (length tail - 4) tail }

-- What the inner stream answers to a poll.
pub data Inner : Type 0 where
  chunk broken : Text → Inner
  closed : Inner
  -- Nothing yet; the timer is ready this many times in a row.
  quiet : ℕ → Inner

pub data Polled : Type 0 where
  bytes failed : Text → Polled
  finished pending : Polled

-- The loop of the `Pending` arm.
unfoldable pub rounds : ℕ → Pings → Polled
unfolding at_boundary
rounds zero p = pending
rounds (suc n) p = let more = rounds n p in if at_boundary p then bytes ping else more

-- `poll_next`
unfoldable pub poll_next : Inner → Pings → Polled × Pings
unfolding relayed rounds
poll_next (chunk t) p = (bytes t, if is_empty t then p else relayed t p)
poll_next (broken e) p = (failed e, p)
poll_next closed p = (finished, p)
poll_next (quiet n) p = (rounds n p, p)

-- The polls so far, the latest first; what they relayed of the backend's.
abbrev pub after : List Inner → Pings
after [] = new
after (i ∷ older) = (poll_next i (after older)).1

abbrev pub said : List Inner → Text
said [] = []
said (chunk t ∷ older) = said older ++ t
said (broken e ∷ older) = said older
said (closed ∷ older) = said older
said (quiet n ∷ older) = said older

-- Nothing was said, or a blank line was said last.
abbrev pub is_whole : Text → Bool
is_whole t = is_empty t || (ends_with t (10 ∷ 10 ∷ []) || ends_with t (13 ∷ 10 ∷ 13 ∷ 10 ∷ []))

-- The last four bytes.
abbrev last4 : Text → Text
last4 t = drop (length t - 4) t

-- Only the last four bytes count for the last four after more.
last4-append : (xs ys : Text) → last4 (last4 xs ++ ys) ≡ last4 (xs ++ ys)
last4-append xs ys =
    let k = length xs - 4 in
    let front : drop k (xs ++ ys) ≡ drop k xs ++ ys = drop-append k xs ys (omega arith) in
    let long : length (xs ++ ys) ≡ length xs + length ys = length-append xs ys in
    let less : length (drop k (xs ++ ys)) ≡ length (xs ++ ys) - k = length-drop k (xs ++ ys) in
    let sum : k + (length (drop k (xs ++ ys)) - 4) ≡ length (xs ++ ys) - 4 =
      omega (arith, long, less) in
    ap last4 (sym front)
    ∙ (sym (drop-drop k (length (drop k (xs ++ ys)) - 4) (xs ++ ys))
        ∙ ap (λ n. drop n (xs ++ ys)) sum)

-- And they tell how a text ends.
ends_with-last4 : (t end : Text) → length end ≤ 4 → ends_with (last4 t) end ≡ ends_with t end
unfolding ends_with
ends_with-last4 t end h =
    let k = length t - 4 in
    let less : length (drop k t) ≡ length t - k = length-drop k t in
    let sum : k + (length (drop k t) - length end) ≡ length t - length end =
      omega (arith, h, less) in
    ap (λ u. text_eq u end)
      (sym (drop-drop k (length (drop k t) - length end) t) ∙ ap (λ n. drop n t) sum)

is_empty-last4 : (t : Text) → is_empty (last4 t) ≡ is_empty t
is_empty-last4 [] = refl
is_empty-last4 (c ∷ t) = by_length (last4 (c ∷ t)) (length-drop (length (c ∷ t) - 4) (c ∷ t))
  where
    by_length : (u : Text) → length u ≡ suc (length t) - (suc (length t) - 4) → is_empty u ≡ false
    by_length [] e = let no : ⊥ = omega (arith, e) in elim no [ ]
    by_length (d ∷ u) e = refl

-- The tail is what the last four bytes relayed were.
tail-after : (h : List Inner) → (after h).tail ≡ last4 (said h)
unfolding poll_next relayed
tail-after [] = refl
tail-after (chunk [] ∷ older) = rw (append-nil (said older)) (tail-after older)
tail-after (chunk (c ∷ t) ∷ older) =
    ap (λ u. last4 (u ++ c ∷ t)) (tail-after older) ∙ last4-append (said older) (c ∷ t)
tail-after (broken e ∷ older) = tail-after older
tail-after (closed ∷ older) = tail-after older
tail-after (quiet n ∷ older) = tail-after older

at_boundary-after : (h : List Inner) → at_boundary (after h) ≡ is_whole (said h)
unfolding at_boundary
at_boundary-after h =
    rw
      (
        at_boundary,
        tail-after h,
        is_empty-last4 (said h),
        ends_with-last4 (said h) (10 ∷ 10 ∷ []) (omega arith),
        ends_with-last4 (said h) (13 ∷ 10 ∷ 13 ∷ 10 ∷ []) (omega arith),
      )
      refl

abbrev is_positive : ℕ → Bool
is_positive zero = false
is_positive (suc n) = true

rounds_lem :
    (n : ℕ) (p : Pings)
    → rounds n p ≡ (if is_positive n && at_boundary p then bytes ping else pending)
unfolding rounds
rounds_lem zero p = refl
rounds_lem (suc n) p = ground (arith, rounds_lem n p)

-- On a quiet stream a ping goes out exactly when the timer has run out and everything relayed so
-- far, however it was cut into chunks, is nothing or ends in a blank line: no ping lands inside an
-- event.
pub poll_next-quiet :
    (h : List Inner) (n : ℕ)
    → (poll_next (quiet n) (after h)).0
      ≡ (if is_positive n && is_whole (said h) then bytes ping else pending)
unfolding poll_next
poll_next-quiet h n = rounds_lem n (after h) ∙ rw (at_boundary-after h) refl
