-- ===== src/Activity/Exchanges/Recent.antt =====
-- The exchanges that src/activity/mod.rs keeps when they are finished.
use anthroxy.Prelude.{
  ◌+◌, ◌-◌, ◌≤◌, ◌==◌, ◌≡◌, refl, sym, ap, ◌∙◌, List, [], ◌∷◌, ◌++◌, length, length-append,
  length-drop, drop, drop-append, drop-drop, append_assoc, append-nil, ==_iff, arith, true, false,
}
use native.Mathlib.Decide.{dec_le}
use anthroxy.Activity.Exchanges.{View, recent_max, push_recent}

-- What is kept when exchanges finish in this order.
unfoldable pub kept : List View → List View → List View
unfolding push_recent
kept recent [] = recent
kept recent (v ∷ finished) = kept (push_recent v recent) finished

-- The last ones of a list, up to the limit.
abbrev pub last_ones : List View → List View
last_ones vs = drop (length vs - recent_max) vs

length-last_ones : (vs : List View) → length (last_ones vs) ≤ recent_max
length-last_ones vs = omega (arith, length-drop (length vs - recent_max) vs)

push_recent-full :
    (v : View) (recent : List View)
    → (length recent == recent_max) ≡ true
    → push_recent v recent ≡ drop 1 recent ++ v ∷ []
unfolding push_recent
push_recent-full v recent h = rw h refl

push_recent-room :
    (v : View) (recent : List View)
    → (length recent == recent_max) ≡ false
    → push_recent v recent ≡ recent ++ v ∷ []
unfolding push_recent
push_recent-room v recent h = rw h refl

pub push_recent-last_ones :
    (v : View) (vs : List View) → push_recent v (last_ones vs) ≡ last_ones (vs ++ v ∷ [])
push_recent-last_ones v vs = elim (dec_le recent_max (length vs)) [
  | yes many ↦
      let k = length vs - recent_max in
      let next : k + 1 ≡ length (vs ++ v ∷ []) - recent_max =
        omega (arith, many, length-append vs (v ∷ [])) in
      let full : length (last_ones vs) ≡ recent_max = omega (arith, many, length-drop k vs) in
      push_recent-full v (last_ones vs) ((==_iff (length (last_ones vs)) recent_max).1 full)
      ∙ ap (λ r. r ++ v ∷ []) (sym (drop-drop k 1 vs))
      ∙ sym (drop-append (k + 1) vs (v ∷ []) (omega (arith, many)))
      ∙ ap (λ n. drop n (vs ++ v ∷ [])) next
  | no few ↦
      let whole : length vs - recent_max ≡ 0 = omega (arith, few) in
      let grown : length (vs ++ v ∷ []) - recent_max ≡ 0 =
        omega (arith, few, length-append vs (v ∷ [])) in
      let room : (length (last_ones vs) == recent_max) ≡ false = rw whole (ground (arith, few)) in
      push_recent-room v (last_ones vs) room
      ∙ ap (λ n. drop n vs ++ v ∷ []) whole
      ∙ ap (λ n. drop n (vs ++ v ∷ [])) (sym grown)
]

kept-last_ones :
    (vs finished : List View) → kept (last_ones vs) finished ≡ last_ones (vs ++ finished)
unfolding kept
kept-last_ones vs [] = ap last_ones (sym (append-nil vs))
kept-last_ones vs (v ∷ finished) =
    ap (λ r. kept r finished) (push_recent-last_ones v vs)
    ∙ kept-last_ones (vs ++ v ∷ []) finished
    ∙ ap last_ones (append_assoc vs (v ∷ []) finished)

-- Of all exchanges that finished, the last ones are kept, in order and each once, up to RECENT.
pub kept-from_none : (finished : List View) → kept [] finished ≡ last_ones finished
kept-from_none finished = kept-last_ones [] finished
