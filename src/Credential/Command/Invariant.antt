-- ===== src/Credential/Command/Invariant.antt =====
-- What holds of the cache of a command's credential through every call and every rejection.
use anthroxy.Prelude.{
  not, ◌&&◌, ℕ, ◌≤◌, ◌<◌, ◌==◌, ◌≡◌, refl, Option, none, some, List, [], ◌∷◌, length, drop,
  length-append, length-drop, Text, Result, ok, err, arith, Bool-cases, Option-cases, Result-cases,
  inl, inr,
}
use anthroxy.Http.{Http}
use anthroxy.Credential.{CredentialHeader, Credential, CredentialError, mask}
use anthroxy.Credential.Command.{
  Answered, Cached, RefreshRecord, Held, new_held, Call, refresh_history, pushed, observe, fallback,
  served, spared, fetch, after_failure, after_success, run_command, credential,
}
use anthroxy.Credential.Command.Invalidate.{is_reproduced, is_cached, invalidate}

-- A rejected value is kept only while nothing is cached.
abbrev pub Invalidated : Option Credential → Option Cached → Type 0
Invalidated none cached = Unit
Invalidated (some rejected) cached = cached ≡ none

-- The value shown as current is the cached one.
abbrev pub Shows : Option (Text × ℕ) → Option Cached → Type 0
Shows none cached = Unit
Shows (some (masked, at)) cached =
    (c : Cached) × (cached ≡ some c) × (masked ≡ mask c.credential_of.secret)

unfoldable pub IsSound : Held → Type 0
IsSound held =
    Invalidated held.slot.invalidated held.slot.cached
    × Shows held.observed.current held.slot.cached
    × (length held.observed.runs ≤ refresh_history)

length-pushed :
    (run : RefreshRecord) (runs : List RefreshRecord)
    → length runs ≤ refresh_history
    → length (pushed run runs) ≤ refresh_history
unfolding pushed
length-pushed run runs l = elim (Bool-cases (length runs == refresh_history)) [
  | inl full ↦
      simp full (omega (arith, l, length-append (drop 1 runs) (run ∷ []), length-drop 1 runs))
  | inr short ↦
      let less : length runs < refresh_history = ground (arith, short, l) in
      simp short (omega (arith, less, length-append runs (run ∷ [])))
]

module _ (h : Http) (header : CredentialHeader) (refresh : ℕ) where
  -- What follows a run, by what it produced.
  unfoldable pub after_run : Call → Result CredentialError Cached → Held → Answered
  after_run call (ok cached) held =
      after_success h header refresh call cached
        (record held { observed = observe call (ok cached) held.observed })
  after_run call (err error) held =
      after_failure h header refresh call error
        (record held { observed = observe call (err error) held.observed })

  pub run_command-after_run :
      (call : Call) (held : Held)
      → run_command h header refresh call held ≡ after_run call (fetch h header refresh call) held
  unfolding run_command after_run
  run_command-after_run call held = elim (Result-cases (fetch h header refresh call)) [
    | inl (cached, e) ↦ simp (e, run_command) refl
    | inr (error, e) ↦ simp (e, run_command) refl
  ]

  after_failure-IsSound :
      (call : Call) (error : CredentialError) (held : Held)
      → IsSound held
      → IsSound (after_failure h header refresh call error held).held
  unfolding IsSound after_failure
  after_failure-IsSound call error held (i, s, l) =
      elim (Option-cases
        (fallback call.ended (record held.slot { failed = some (call.ended, error) }))) [
          | inl e ↦ simp (e, after_failure) (i, tt, l)
          | inr (c, e) ↦ simp (e, after_failure) (i, s, l)
        ]

  after_run-IsSound :
      (call : Call) (run : Result CredentialError Cached) (held : Held)
      → IsSound held
      → IsSound (after_run call run held).held
  unfolding IsSound after_run after_success observe
  after_run-IsSound call (ok cached) held (i, s, l) =
      (tt, (cached, refl, refl), length-pushed _ held.observed.runs l)
  after_run-IsSound call (err error) held (i, s, l) =
      after_failure-IsSound call error
        (record held { observed = observe call (err error) held.observed })
        (i, s, length-pushed _ held.observed.runs l)

  pub credential-IsSound :
      (call : Call) (held : Held)
      → IsSound held
      → IsSound (credential h header refresh call held).held
  unfolding credential
  credential-IsSound call held sound = elim (Option-cases (served call held.slot)) [
    | inr (answer, e) ↦ simp (e, credential) sound
    | inl e ↦ elim (Option-cases (spared call held.slot)) [
      | inr (answer, f) ↦ simp (e, f, credential) sound
      | inl f ↦
          simp (e, f, credential, run_command-after_run call held)
            (after_run-IsSound call (fetch h header refresh call) held sound)
    ]
  ]

pub invalidate-IsSound :
    (now : ℕ) (rejected : Credential) (held : Held)
    → IsSound held
    → IsSound (invalidate now rejected held)
unfolding IsSound invalidate
invalidate-IsSound now rejected held sound =
    elim (Bool-cases (not (is_reproduced now rejected held.slot) && is_cached rejected held.slot)) [
      | inl e ↦ simp (e, invalidate) (refl, tt, sound.2)
      | inr e ↦ simp (e, invalidate) sound
    ]

-- What may be asked of a credential: it, or to forget a rejected value.
pub data Asked : Type 0 where
  called : Call → Asked
  rejected_at : ℕ → Credential → Asked

module _ (h : Http) (header : CredentialHeader) (refresh : ℕ) where
  unfoldable pub held_after : List Asked → Held → Held
  held_after [] held = held
  held_after (called call ∷ asked) held =
      held_after asked (credential h header refresh call held).held
  held_after (rejected_at now rejected ∷ asked) held =
      held_after asked (invalidate now rejected held)

  held_after-IsSound_from :
      (asked : List Asked) (held : Held) → IsSound held → IsSound (held_after asked held)
  unfolding held_after
  held_after-IsSound_from [] held sound = sound
  held_after-IsSound_from (called call ∷ asked) held sound =
      held_after-IsSound_from asked (credential h header refresh call held).held
        (credential-IsSound h header refresh call held sound)
  held_after-IsSound_from (rejected_at now rejected ∷ asked) held sound =
      held_after-IsSound_from asked (invalidate now rejected held)
        (invalidate-IsSound now rejected held sound)

  -- After any calls and rejections, in any order: a rejected value is kept only while nothing is
  -- cached, the value shown as current is the cached one, masked, and at most REFRESH_HISTORY runs
  -- are kept.
  pub held_after-IsSound : (asked : List Asked) → IsSound (held_after asked new_held)
  unfolding IsSound
  held_after-IsSound asked = held_after-IsSound_from asked new_held (tt, tt, omega arith)
