-- ===== src/Credential/Command/Sharing.antt =====
-- Calls of `credential` that follow a run of the command.
use anthroxy.Prelude.{
  ℕ, ◌+◌, ◌≤◌, ◌<◌, ◌≡◌, refl, sym, ◌∙◌, ap, true, false, Option, none, some, ok, err, arith,
  Option-cases, inl, inr, Bool-cases, ltb,
}
use mathlib.Core.Path.{subst}
use anthroxy.Http.{Http}
use anthroxy.Credential.{CredentialHeader, Credential, CredentialError}
use anthroxy.Credential.Command.{
  Answered, Answer, Cached, Slot, Held, Call, retry_after_failure, observe, fallback, served,
  spared, fetch, after_failure, after_success, credential,
}
use anthroxy.Credential.Command.Invariant.{after_run, run_command-after_run}

-- A call that found nothing to serve.
served-later :
    (first second : Call) (slot : Slot)
    → first.locked ≤ second.locked
    → served first slot ≡ none
    → served second slot ≡ none
unfolding served
served-later first second slot l e = elim (Option-cases slot.cached) [
  | inl c ↦ simp (c, served) refl
  | inr (cached, c) ↦ ground (arith, c, l, e)
]

-- What is served does not depend on the last failure.
served-failed :
    (call : Call) (slot : Slot) (failure : Option (ℕ × CredentialError))
    → served call (record slot { failed = failure }) ≡ served call slot
unfolding served
served-failed call slot failure = refl

served-valid :
    (call : Call) (slot : Slot) (cached : Cached)
    → slot.cached ≡ some cached
    → call.locked < cached.valid_until
    → served call slot ≡ some (ok (some cached.credential_of))
unfolding served
served-valid call slot cached e l = ground (arith, e, l)

-- What a failed run leaves to those that come after.
abbrev pub left_by : ℕ → CredentialError → Slot → Answer
left_by now error slot = elim (fallback now slot) [ none ↦ err error | some c ↦ ok (some c) ]

-- The answer to a call at this time: the cached value, which is usable, or else the error, when no
-- cached value is usable.
pub data LeftBy (now : ℕ) (error : CredentialError) (slot : Slot) : Answer → Type 0 where
  kept :
      (cached : Cached) (until : ℕ)
      → slot.cached ≡ some cached
      → cached.usable_until ≡ some until
      → now < until
      → LeftBy now error slot (ok (some cached.credential_of))
  nothing_left :
      ((cached : Cached) (until : ℕ)
        → slot.cached ≡ some cached
        → cached.usable_until ≡ some until
        → until ≤ now)
      → LeftBy now error slot (err error)

left_by-LeftBy :
    (now : ℕ) (error : CredentialError) (slot : Slot)
    → LeftBy now error slot (left_by now error slot)
unfolding fallback
left_by-LeftBy now error slot =
    let from : (a : Answer)
        → left_by now error slot ≡ a
        → LeftBy now error slot a
        → LeftBy now error slot (left_by now error slot) =
      λ a e l. subst (λ b. LeftBy now error slot b) (sym e) l in
    elim (Option-cases slot.cached) [
      | inl n ↦
          from (err error) (ground (arith, n)) (nothing_left (λ cached until is_some at_end. cc))
      | inr (cached, n) ↦ elim (Option-cases cached.usable_until) [
        | inl u ↦ from (err error) (ground (arith, n, u)) (
            nothing_left (λ cached' until is_some at_end.
              let same : cached ≡ cached' = cc in
              let wrong : none ≡ some until = sym u ∙ ap (λ k. k.usable_until) same ∙ at_end in cc))
        | inr (until, u) ↦ elim (Bool-cases (ltb now until)) [
          | inl before ↦
              from (ok (some cached.credential_of)) (ground (arith, n, u, before))
                (kept cached until n u (ground (arith, before)))
          | inr after ↦ from (err error) (ground (arith, n, u, after)) (
              nothing_left (λ cached' until' is_some at_end.
                let same : cached ≡ cached' = cc in
                let both : some until ≡ some until' =
                  sym u ∙ ap (λ k. k.usable_until) same ∙ at_end in
                let same_end : until ≡ until' = cc in ground (arith, after, same_end)))
        ]
      ]
    ]

spared-waited :
    (call : Call) (slot : Slot) (ended : ℕ) (error : CredentialError)
    → slot.failed ≡ some (ended, error)
    → call.arrived ≤ ended
    → spared call slot ≡ some (left_by call.locked error slot)
unfolding spared
spared-waited call slot ended error e l = elim (Option-cases (fallback call.locked slot)) [
  | inl f ↦ ground (arith, e, l, f)
  | inr (c, f) ↦ ground (arith, e, l, f)
]

spared-soon :
    (call : Call) (slot : Slot) (ended : ℕ) (error : CredentialError) (c : Credential)
    → slot.failed ≡ some (ended, error)
    → call.locked < ended + retry_after_failure
    → fallback call.locked slot ≡ some c
    → spared call slot ≡ some (ok (some c))
unfolding spared
spared-soon call slot ended error c e l f = ground (arith, e, l, f)

-- What is served is the cached value, valid or usable.
served-fallback :
    (call : Call) (slot : Slot) (c : Credential) (answer : Answer)
    → fallback call.locked slot ≡ some c
    → served call slot ≡ some answer
    → answer ≡ ok (some c)
unfolding served fallback
served-fallback call slot c answer f e = elim (Option-cases slot.cached) [
  | inl n ↦ let no : ⊥ = ground (arith, n, e) in elim no [ ]
  | inr (cached, n) ↦ elim (Option-cases cached.usable_until) [
    | inl u ↦ let no : ⊥ = ground (arith, n, u, f) in elim no [ ]
    | inr (until, u) ↦ ground (arith, n, u, e, f)
  ]
]

module _ (h : Http) (header : CredentialHeader) (refresh : ℕ) where
  -- A call answered without a run.
  abbrev pub answered : Answer → Held → Answered
  answered answer held = record { result = answer; held = held; ran = false }

  pub credential-served :
      (call : Call) (held : Held) (answer : Answer)
      → served call held.slot ≡ some answer
      → credential h header refresh call held ≡ answered answer held
  unfolding credential
  credential-served call held answer e = simp (e, credential) refl

  pub credential-spared :
      (call : Call) (held : Held) (answer : Answer)
      → served call held.slot ≡ none
      → spared call held.slot ≡ some answer
      → credential h header refresh call held ≡ answered answer held
  unfolding credential
  credential-spared call held answer e f = simp (e, f, credential) refl

  -- A call that ran found nothing to serve, and nothing that spares the run.
  pub credential-ran :
      (call : Call) (held : Held)
      → (credential h header refresh call held).ran ≡ true
      → (served call held.slot ≡ none)
        × (credential h header refresh call held
            ≡ after_run h header refresh call (fetch h header refresh call) held)
  unfolding credential
  credential-ran call held ran = elim (Option-cases (served call held.slot)) [
    | inr (answer, e) ↦
        let wrong : false ≡ true =
          sym (ap (λ a. a.ran) (credential-served call held answer e)) ∙ ran in
        let no : ⊥ = cc in elim no [ ]
    | inl e ↦ elim (Option-cases (spared call held.slot)) [
      | inr (answer, f) ↦
          let wrong : false ≡ true =
            sym (ap (λ a. a.ran) (credential-spared call held answer e f)) ∙ ran in
          let no : ⊥ = cc in elim no [ ]
      | inl f ↦ (e, simp (e, f, credential) (run_command-after_run h header refresh call held))
    ]
  ]

  -- A call that gets the lock behind one whose run produced a value, while that value is valid, gets
  -- the same value and runs nothing.
  pub credential-shared :
      (first second : Call) (held : Held) (cached : Cached)
      → (credential h header refresh first held).ran ≡ true
      → fetch h header refresh first ≡ ok cached
      → second.locked < cached.valid_until
      → credential h header refresh second (credential h header refresh first held).held
        ≡ answered
            (credential h header refresh first held).result
            (credential h header refresh first held).held
  unfolding after_run after_success
  credential-shared first second held cached ran e l =
      let (nothing, same) = credential-ran first held ran in
      let made : credential h header refresh first held
          ≡ after_run h header refresh first (ok cached) held =
        same ∙ ap (λ r. after_run h header refresh first r held) e in
      rw made (
        credential-served second (after_run h header refresh first (ok cached) held).held
          (ok (some cached.credential_of))
          (served-valid second (after_run h header refresh first (ok cached) held).held.slot cached
            refl l))

  after_failure-slot :
      (call : Call) (error : CredentialError) (held : Held)
      → (after_failure h header refresh call error held).held.slot
        ≡ record held.slot { failed = some (call.ended, error) }
  unfolding after_failure
  after_failure-slot call error held =
      elim (Option-cases
        (fallback call.ended (record held.slot { failed = some (call.ended, error) }))) [
          | inl e ↦ simp (e, after_failure) refl
          | inr (c, e) ↦ simp (e, after_failure) refl
        ]

  -- A call that waited for one whose run failed runs nothing and changes nothing; it gets the cached
  -- value while that is usable, and else that run's error.
  pub credential-waited :
      (first second : Call) (held : Held) (error : CredentialError)
      → (credential h header refresh first held).ran ≡ true
      → fetch h header refresh first ≡ err error
      → second.arrived ≤ first.ended
      → first.locked ≤ second.locked
      → (answer : Answer) × (credential h header refresh second
            (credential h header refresh first held).held
          ≡ answered answer (credential h header refresh first held).held)
        × LeftBy second.locked error held.slot answer
  unfolding after_run fallback
  credential-waited first second held error ran e waited l =
      let (nothing, same) = credential-ran first held ran in
      let held' = record held { observed = observe first (err error) held.observed } in
      let made : (credential h header refresh first held).held.slot
          ≡ record held.slot { failed = some (first.ended, error) } =
        ap (λ a. a.held.slot) (same ∙ ap (λ r. after_run h header refresh first r held) e)
        ∙ after_failure-slot first error held' in
      let later : served second (credential h header refresh first held).held.slot ≡ none =
        ap (served second) made
        ∙ served-failed second held.slot (some (first.ended, error))
        ∙ served-later first second held.slot l nothing in
      let spared_e =
        spared-waited second (credential h header refresh first held).held.slot first.ended error
          (ap (λ s. s.failed) made) waited
        ∙ ap (λ s. some (left_by second.locked error s)) made in
      (
        left_by second.locked error held.slot,
        credential-spared second (credential h header refresh first held).held
            (left_by second.locked error held.slot) later spared_e,
        left_by-LeftBy second.locked error held.slot,
      )

  -- Within RETRY_AFTER_FAILURE of a failed run, while the cached value is usable, a call gets that
  -- value and runs nothing.
  pub credential-soon :
      (call : Call) (held : Held) (ended : ℕ) (error : CredentialError) (c : Credential)
      → held.slot.failed ≡ some (ended, error)
      → call.locked < ended + retry_after_failure
      → fallback call.locked held.slot ≡ some c
      → credential h header refresh call held ≡ answered (ok (some c)) held
  credential-soon call held ended error c e l f = elim (Option-cases (served call held.slot)) [
    | inr (answer, s) ↦
        credential-served call held answer s
        ∙ ap (λ a. answered a held) (served-fallback call held.slot c answer f s)
    | inl s ↦
        credential-spared call held (ok (some c)) s (spared-soon call held.slot ended error c e l f)
  ]
