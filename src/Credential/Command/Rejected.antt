-- ===== src/Credential/Command/Rejected.antt =====
-- What becomes of a value that a backend rejected.
use anthroxy.Prelude.{
  ℕ, ◌-◌, ◌<◌, ◌≤◌, ◌≡◌, ◌≢◌, ◌⊎◌, refl, sym, ◌∙◌, ap, true, false, none, some, lt→ltb, Result, ok,
  err, arith, Bool-cases, Option-cases, Result-cases, inl, inr,
}
use anthroxy.Http.{Http}
use anthroxy.Credential.{
  CredentialHeader, Credential, CredentialError, credential_eq, credential_eq-eq,
  credential_eq_self,
}
use anthroxy.Credential.Command.{
  Answer, Cached, Slot, Held, Call, retry_after_failure, fallback, served, spared, fetch,
  after_failure, after_success, credential, was_rejected,
}
use anthroxy.Credential.Command.Invalidate.{is_reproduced, is_cached, invalidate}
use anthroxy.Credential.Command.Invariant.{IsSound, after_run, run_command-after_run}
use anthroxy.Credential.Command.Sharing.{answered, credential-served, credential-spared}

-- What is handed out without a run is the cached value.
fallback-cached :
    (now : ℕ) (slot : Slot) (c : Credential)
    → fallback now slot ≡ some c
    → (cached : Cached) × (slot.cached ≡ some cached) × (cached.credential_of ≡ c)
unfolding fallback
fallback-cached now slot c e = elim (Option-cases slot.cached) [
  | inl n ↦ let no : ⊥ = ground (arith, n, e) in elim no [ ]
  | inr (cached, n) ↦ elim (Option-cases cached.usable_until) [
    | inl u ↦ let no : ⊥ = ground (arith, n, u, e) in elim no [ ]
    | inr (until, u) ↦ (cached, n, ground (arith, n, u, e))
  ]
]

served-cached :
    (call : Call) (slot : Slot) (c : Credential)
    → served call slot ≡ some (ok (some c))
    → (cached : Cached) × (slot.cached ≡ some cached) × (cached.credential_of ≡ c)
unfolding served
served-cached call slot c e = elim (Option-cases slot.cached) [
  | inl n ↦ let no : ⊥ = ground (arith, n, e) in elim no [ ]
  | inr (cached, n) ↦ (cached, n, ground (arith, n, e))
]

spared-cached :
    (call : Call) (slot : Slot) (c : Credential)
    → spared call slot ≡ some (ok (some c))
    → (cached : Cached) × (slot.cached ≡ some cached) × (cached.credential_of ≡ c)
unfolding spared
spared-cached call slot c e = elim (Option-cases slot.failed) [
  | inl n ↦ let no : ⊥ = ground (arith, n, e) in elim no [ ]
  | inr ((ended, error), n) ↦ elim (Option-cases (fallback call.locked slot)) [
    | inl f ↦ let no : ⊥ = ground (arith, n, f, e) in elim no [ ]
    | inr (c', f) ↦ fallback-cached call.locked slot c (f ∙ ap some (ground (arith, n, f, e)))
  ]
]

-- A value that was not reproduced within RETRY_AFTER_FAILURE.
is_reproduced-old :
    (now : ℕ) (c : Credential) (slot : Slot)
    → ((at : ℕ) → slot.reproduced ≡ some (c, at) → retry_after_failure ≤ now - at)
    → is_reproduced now c slot ≡ false
unfolding is_reproduced
is_reproduced-old now c slot old = elim (Option-cases slot.reproduced) [
  | inl n ↦ ground (arith, n)
  | inr ((value, at), n) ↦ elim (Bool-cases (credential_eq value c)) [
    | inr other ↦ ground (arith, n, other)
    | inl same ↦
        let long = old at (n ∙ ap (λ v. some (v, at)) (credential_eq-eq value c same)) in
        ground (arith, n, long)
  ]
]

is_cached-cached :
    (slot : Slot) (c : Credential) (cached : Cached)
    → slot.cached ≡ some cached
    → cached.credential_of ≡ c
    → is_cached c slot ≡ true
unfolding is_cached
is_cached-cached slot c cached n e = simp (n, e, is_cached) (credential_eq_self c)

is_cached-invalidate :
    (now : ℕ) (c : Credential) (held : Held)
    → is_reproduced now c held.slot ≡ false
    → is_cached c (invalidate now c held).slot ≡ false
unfolding invalidate
is_cached-invalidate now c held fresh = elim (Bool-cases (is_cached c held.slot)) [
  | inl e ↦ simp (fresh, e, invalidate) refl
  | inr e ↦ simp (fresh, e, invalidate) refl
]

answered-cached :
    (call : Call) (slot : Slot) (c : Credential) (answer : Answer)
    → (served call slot ≡ some answer) ⊎ (spared call slot ≡ some answer)
    → answer ≡ ok (some c)
    → (cached : Cached) × (slot.cached ≡ some cached) × (cached.credential_of ≡ c)
answered-cached call slot c answer (inl e) is_ok = served-cached call slot c (e ∙ ap some is_ok)
answered-cached call slot c answer (inr e) is_ok = spared-cached call slot c (e ∙ ap some is_ok)

module _ (h : Http) (header : CredentialHeader) (refresh : ℕ) where
  after_failure-ran :
      (call : Call) (error : CredentialError) (held : Held)
      → (after_failure h header refresh call error held).ran ≡ true
  unfolding after_failure
  after_failure-ran call error held =
      elim (Option-cases
        (fallback call.ended (record held.slot { failed = some (call.ended, error) }))) [
          | inl e ↦ simp (e, after_failure) refl
          | inr (c, e) ↦ simp (e, after_failure) refl
        ]

  after_run-ran :
      (call : Call) (run : Result CredentialError Cached) (held : Held)
      → (after_run h header refresh call run held).ran ≡ true
  unfolding after_run after_success
  after_run-ran call (ok cached) held = refl
  after_run-ran call (err error) held = after_failure-ran call error _

  -- Every way a call goes: served, spared, or through a run.
  credential-cases :
      (call : Call) (held : Held)
      → ((answer : Answer) × ((served call held.slot ≡ some answer)
            ⊎ (spared call held.slot ≡ some answer))
          × (credential h header refresh call held ≡ answered h header refresh answer held))
        ⊎ (credential h header refresh call held
            ≡ after_run h header refresh call (fetch h header refresh call) held)
  unfolding credential
  credential-cases call held = elim (Option-cases (served call held.slot)) [
    | inr (answer, e) ↦ inl (answer, inl e, credential-served h header refresh call held answer e)
    | inl e ↦ elim (Option-cases (spared call held.slot)) [
      | inr (answer, f) ↦
          inl (answer, inr f, credential-spared h header refresh call held answer e f)
      | inl f ↦ inr (simp (e, f, credential) (run_command-after_run h header refresh call held))
    ]
  ]

  -- A rejected value that was not recorded as reproduced within RETRY_AFTER_FAILURE before is not handed
  -- out again before the command has run.
  pub credential-invalidate :
      (now : ℕ) (c : Credential) (call : Call) (held : Held)
      → ((at : ℕ) → held.slot.reproduced ≡ some (c, at) → retry_after_failure ≤ now - at)
      → (credential h header refresh call (invalidate now c held)).ran ≡ false
      → (credential h header refresh call (invalidate now c held)).result ≢ ok (some c)
  credential-invalidate now c call held old still got =
      let fresh = is_reproduced-old now c held.slot old in
      let held' = invalidate now c held in
      elim (credential-cases call held') [
        | inr ran ↦
            let wrong : false ≡ true =
              sym still
              ∙ ap (λ a. a.ran) ran
              ∙ after_run-ran call (fetch h header refresh call) held' in
            cc
        | inl (answer, how, same) ↦
            let is_ok : answer ≡ ok (some c) = sym (ap (λ a. a.result) same) ∙ got in
            let (cached, there, is_c) = answered-cached call held'.slot c answer how is_ok in
            let wrong : false ≡ true =
              sym (is_cached-invalidate now c held fresh)
              ∙ is_cached-cached held'.slot c cached there is_c in
            cc
      ]

  after_run-empty :
      (call : Call) (error : CredentialError) (held : Held)
      → held.slot.cached ≡ none
      → (after_run h header refresh call (err error) held).result ≡ err error
  unfolding after_run after_failure fallback
  after_run-empty call error held e = simp (e, after_failure) refl

  after_run-result :
      (call : Call) (cached : Cached) (held : Held)
      → (after_run h header refresh call (ok cached) held).result ≡ ok (some cached.credential_of)
  unfolding after_run after_success
  after_run-result call cached held = refl

  invalidate-after_run :
      (now : ℕ) (c : Credential) (call : Call) (cached : Cached) (held : Held)
      → held.slot.invalidated ≡ some c
      → cached.credential_of ≡ c
      → now - call.compared < retry_after_failure
      → invalidate now c (after_run h header refresh call (ok cached) held).held
        ≡ (after_run h header refresh call (ok cached) held).held
  unfolding after_run after_success invalidate is_reproduced was_rejected
  invalidate-after_run now c call cached held was is_c soon =
      simp (was, is_c, credential_eq_self c, lt→ltb (now - call.compared) retry_after_failure soon)
        refl

  -- A value that the command reproduced after it was rejected is kept when it is rejected again
  -- within RETRY_AFTER_FAILURE.
  pub invalidate-credential :
      (now : ℕ) (c : Credential) (call : Call) (held : Held)
      → IsSound held
      → held.slot.invalidated ≡ some c
      → (credential h header refresh call held).result ≡ ok (some c)
      → now - call.compared < retry_after_failure
      → invalidate now c (credential h header refresh call held).held
        ≡ (credential h header refresh call held).held
  unfolding IsSound
  invalidate-credential now c call held sound was got soon =
      let empty_slot : held.slot.cached ≡ none = rw was at sound.0 in
      elim (credential-cases call held) [
        | inl (answer, how, same) ↦
            let is_ok : answer ≡ ok (some c) = sym (ap (λ a. a.result) same) ∙ got in
            let (cached, there, is_c) = answered-cached call held.slot c answer how is_ok in
            let wrong : some cached ≡ none = sym there ∙ empty_slot in
            let no : ⊥ = cc in elim no [ ]
        | inr ran ↦ elim (Result-cases (fetch h header refresh call)) [
          | inr (error, e) ↦
              let wrong : err error ≡ ok (some c) =
                sym (after_run-empty call error held empty_slot)
                ∙ ap (λ r. (after_run h header refresh call r held).result) (sym e)
                ∙ ap (λ a. a.result) (sym ran)
                ∙ got in
              let no : ⊥ = cc in elim no [ ]
          | inl (cached, e) ↦
              let made = ran ∙ ap (λ r. after_run h header refresh call r held) e in
              let is_c : ok (some cached.credential_of) ≡ ok (some c) =
                sym (after_run-result call cached held) ∙ ap (λ a. a.result) (sym made) ∙ got in
              let same_c : cached.credential_of ≡ c = cc in
              rw made (invalidate-after_run now c call cached held was same_c soon)
        ]
      ]
