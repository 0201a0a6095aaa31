-- ===== src/Credential/Command/Tests.antt =====
-- Runs of the cache of a command's credential.
use anthroxy.Prelude.{
  ℕ, ◌+◌, ◌-◌, ◌≤◌, ◌≡◌, ◌≢◌, refl, true, false, some, [], ◌∷◌, ascii, text_eq, Result, ok, err,
  arith,
}
use anthroxy.Http.Sample.{sample}
use anthroxy.Credential.{CredentialHeader, Credential, CredentialError, empty}
use anthroxy.Credential.Command.{
  Answer, Output, Cached, Held, new_held, Call, retry_after_failure, fetch, fallback, credential,
}
use anthroxy.Credential.Command.Invalidate.{invalidate, is_reproduced}
use anthroxy.Credential.Command.Invariant.{
  called, rejected_at, held_after, IsSound, held_after-IsSound,
}
use anthroxy.Credential.Command.Sharing.{answered, LeftBy, credential-waited}
use anthroxy.Credential.Command.Rejected.{credential-invalidate, invalidate-credential}

abbrev bearer : CredentialHeader
bearer = record { name = ascii "authorization"; scheme = some (ascii "Bearer") }

abbrev token : Credential
token = record { header = bearer; secret = ascii "t" }

-- A call that arrives at an instant and has the lock at another; its run ends 5 later.
abbrev call_at : ℕ → ℕ → Result CredentialError Output → Call
call_at arrived locked produced = record {
  arrived = arrived;
  locked = locked;
  ended = locked + 5;
  compared = locked + 5;
  started_at = locked;
  elapsed = 5;
  produced = produced;
  wall_checked = locked;
  fetched = locked + 5;
  wall_left = locked;
}

abbrev prints : Result CredentialError Output
prints = ok (record { secret = ascii "t"; expires_at = some 500000 })

abbrev fails : Result CredentialError Output
fails = err empty

abbrev cached_token : Cached
cached_token = record {
  credential_of = token;
  valid_until = 1015;
  reported_expiry = some 500000;
  usable_until = some 380005;
}

-- The cache after a run that succeeded at 10.
abbrev filled : Held
filled = (credential sample bearer 1000 (call_at 0 10 prints) new_held).held

first-fetch : fetch sample bearer 1000 (call_at 0 10 prints) ≡ ok cached_token
unfolding fetch
first-fetch = refl

first-ran : (credential sample bearer 1000 (call_at 0 10 prints) new_held).ran ≡ true
unfolding credential
first-ran = refl

failed-ran : (credential sample bearer 1000 (call_at 0 10 fails) new_held).ran ≡ true
unfolding credential
failed-ran = refl

failed-fetch : fetch sample bearer 1000 (call_at 0 10 fails) ≡ err empty
unfolding fetch
failed-fetch = refl

credential-waited_example :
    (answer : Answer) × (credential sample bearer 1000
        (call_at 3 16 prints)
        (credential sample bearer 1000 (call_at 0 10 fails) new_held).held
      ≡ answered sample bearer 1000 answer
          (credential sample bearer 1000 (call_at 0 10 fails) new_held).held)
    × LeftBy 16 empty new_held.slot answer
credential-waited_example =
    credential-waited sample bearer 1000 (call_at 0 10 fails) (call_at 3 16 prints) new_held empty
      failed-ran failed-fetch (omega arith) (omega arith)

-- The cache after a run that failed at 2005, when the value from before is usable.
abbrev stale : Held
stale = (credential sample bearer 1000 (call_at 1900 2000 fails) filled).held

stale-failed : stale.slot.failed ≡ some (2005, empty)
unfolding credential
stale-failed = refl

stale-fallback : fallback 20000 stale.slot ≡ some token
unfolding credential fallback
stale-fallback = refl

-- The cache after the value was rejected at 30.
abbrev rejected_held : Held
rejected_held = invalidate 30 token filled

stale-reproduced :
    (at : ℕ) → stale.slot.reproduced ≡ some (token, at) → retry_after_failure ≤ 2006 - at
unfolding credential
stale-reproduced at h = cc

-- A call that waited for the run that failed at 2005, after the value was rejected at 2006.
rejected-still :
    (credential sample bearer 1000 (call_at 2001 2007 prints) (invalidate 2006 token stale)).ran
    ≡ false
unfolding credential invalidate text_eq
rejected-still = refl

credential-invalidate_example :
    (credential sample bearer 1000 (call_at 2001 2007 prints) (invalidate 2006 token stale)).result
    ≢ ok (some token)
unfolding credential is_reproduced
credential-invalidate_example =
    credential-invalidate sample bearer 1000 2006 token (call_at 2001 2007 prints) stale
      stale-reproduced rejected-still

rejected_held-invalidated : rejected_held.slot.invalidated ≡ some token
unfolding credential invalidate text_eq
rejected_held-invalidated = refl

rejected_held-credential :
    (credential sample bearer 1000 (call_at 40 40 prints) rejected_held).result ≡ ok (some token)
unfolding credential invalidate text_eq
rejected_held-credential = refl

rejected_held-IsSound : IsSound rejected_held
unfolding held_after
rejected_held-IsSound =
    held_after-IsSound sample bearer 1000 (called (call_at 0 10 prints) ∷ rejected_at 30 token ∷ [])

invalidate-credential_example :
    invalidate 60 token (credential sample bearer 1000 (call_at 40 40 prints) rejected_held).held
    ≡ (credential sample bearer 1000 (call_at 40 40 prints) rejected_held).held
invalidate-credential_example =
    invalidate-credential sample bearer 1000 60 token (call_at 40 40 prints) rejected_held
      rejected_held-IsSound rejected_held-invalidated rejected_held-credential (omega arith)

held_after-IsSound_example : IsSound (
    held_after sample bearer 1000
      (called (call_at 0 10 prints) ∷ rejected_at 30 token ∷ called (call_at 40 40 fails) ∷ [])
      new_held)
held_after-IsSound_example =
    held_after-IsSound sample bearer 1000
      (called (call_at 0 10 prints) ∷ rejected_at 30 token ∷ called (call_at 40 40 fails) ∷ [])
