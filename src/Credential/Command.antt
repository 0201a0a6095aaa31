-- ===== src/Credential/Command.antt =====
-- src/credential/command.rs: the credential that a command prints, and its cache. What a run of the
-- command produced, read by exec.rs, is a value of each call, as are the instants that the call reads
-- off the clocks; a time is a number of milliseconds. Calls that wait are those whose `arrived` lies
-- before the end of the call ahead of them.
pub mod Invalidate
pub mod Invariant
pub mod Sharing
pub mod Rejected
mod Tests
use anthroxy.Prelude.{
  ℕ, ◌+◌, ◌-◌, ◌*◌, ◌==◌, min, Bool, true, false, ◌&&◌, ◌||◌, not, Option, none, some, List, [],
  ◌∷◌, ◌++◌, if◌then◌else◌, length, drop, ltb, leb, Text, Result, ok, err,
}
use anthroxy.Http.{Http}
use anthroxy.Credential.{
  CredentialHeader, Credential, CredentialError, expired, credential_eq, new_credential, mask,
}

-- `REFRESH_HISTORY`
abbrev pub refresh_history : ℕ
refresh_history = 20

-- `RETRY_AFTER_FAILURE` and `exec::EXPIRY_MARGIN`, in milliseconds.
abbrev pub retry_after_failure : ℕ
retry_after_failure = 30 * 1000

abbrev pub expiry_margin : ℕ
expiry_margin = 120 * 1000

-- `output::Output`
pub record Output : Type 0 where
  pub secret : Text
  pub expires_at : Option ℕ

pub record Cached : Type 0 where
  pub credential_of : Credential
  pub valid_until : ℕ
  pub reported_expiry : Option ℕ
  pub usable_until : Option ℕ

pub record Slot : Type 0 where
  pub cached : Option Cached
  pub failed : Option (ℕ × CredentialError)
  pub invalidated : Option Credential
  pub reproduced : Option (Credential × ℕ)

-- `RefreshRecord`, with the error in place of its text.
pub record RefreshRecord : Type 0 where
  pub at_time : ℕ
  pub duration_ms : ℕ
  pub masked_value : Option Text
  pub error_of : Option CredentialError

-- `Observed`; of its `Current` the masked value and when it was fetched.
pub record Observed : Type 0 where
  pub current : Option (Text × ℕ)
  pub runs : List RefreshRecord

-- What the two mutexes of `CommandCredential` hold.
pub record Held : Type 0 where
  pub slot : Slot
  pub observed : Observed

abbrev pub new_held : Held
new_held = record {
  slot = record { cached = none; failed = none; invalidated = none; reproduced = none };
  observed = record { current = none; runs = [] };
}

-- A call of `credential`: the instants when it arrived, had the lock, ended its run and compared what
-- the run produced; the run's start on the wall clock and how long it took; what the run produced;
-- the wall clock in `valid_for`, the instant in `fetch` and the wall clock after it.
pub record Call : Type 0 where
  pub arrived : ℕ
  pub locked : ℕ
  pub ended : ℕ
  pub compared : ℕ
  pub started_at : ℕ
  pub elapsed : ℕ
  pub produced : Result CredentialError Output
  pub wall_checked : ℕ
  pub fetched : ℕ
  pub wall_left : ℕ

-- `exec::valid_for`, at a time on the wall clock.
unfoldable pub valid_for : ℕ → ℕ → Option ℕ → Result CredentialError ℕ
valid_for wall refresh none = ok refresh
valid_for wall refresh (some expires_at) =
    if ltb expires_at wall
    then err (expired expires_at)
    else ok (min refresh ((expires_at - wall) - expiry_margin))

-- `Slot::fallback`
unfoldable pub fallback : ℕ → Slot → Option Credential
fallback now slot = elim slot.cached [
  | none ↦ none
  | some cached ↦ elim cached.usable_until [
    | none ↦ none
    | some until ↦ if ltb now until then some cached.credential_of else none
  ]
]

abbrev pub Answer : Type 0
Answer = Result CredentialError (Option Credential)

-- The early returns of `credential`.
unfoldable pub served : Call → Slot → Option Answer
served call slot = elim slot.cached [
  | none ↦ none
  | some cached ↦
      if ltb call.locked cached.valid_until then some (ok (some cached.credential_of)) else none
]

unfoldable pub spared : Call → Slot → Option Answer
unfolding fallback
spared call slot = elim slot.failed [
  | none ↦ none
  | some (ended, error) ↦
      let waited = leb call.arrived ended in
      if waited || ltb call.locked (ended + retry_after_failure)
      then elim (fallback call.locked slot) [
        | some credential ↦ some (ok (some credential))
        | none ↦ if waited then some (err error) else none
      ]
      else none
]

-- What `runs` keeps with one more.
unfoldable pub pushed : RefreshRecord → List RefreshRecord → List RefreshRecord
pushed run runs = (if length runs == refresh_history then drop 1 runs else runs) ++ run ∷ []

-- `observe`
unfoldable pub observe : Call → Result CredentialError Cached → Observed → Observed
unfolding pushed mask
observe call (ok cached) o = record {
  current = some (mask cached.credential_of.secret, call.started_at);
  runs =
      pushed
        (record {
          at_time = call.started_at;
          duration_ms = call.elapsed;
          masked_value = some (mask cached.credential_of.secret);
          error_of = none;
        })
        o.runs;
}
observe call (err error) o = record o {
  runs =
      pushed
        (record {
          at_time = call.started_at;
          duration_ms = call.elapsed;
          masked_value = none;
          error_of = some error;
        })
        o.runs;
}

-- A value that the run handed back although it was just rejected.
unfoldable pub was_rejected : Option Credential → Credential → Bool
unfolding credential_eq
was_rejected none c = false
was_rejected (some rejected) c = credential_eq rejected c

-- The result of a call, what is held after it, and whether it ran the command.
pub record Answered : Type 0 where
  pub result : Answer
  pub held : Held
  pub ran : Bool

module _ (h : Http) (header : CredentialHeader) (refresh : ℕ) where
  -- `fetch`, past the run and its reading.
  unfoldable pub fetch : Call → Result CredentialError Cached
  unfolding valid_for new_credential
  fetch call = elim call.produced [
    | err error ↦ err error
    | ok output ↦ elim (valid_for call.wall_checked refresh output.expires_at) [
      | err error ↦ err error
      | ok valid ↦ elim (new_credential h header output.secret) [
        | err error ↦ err error
        | ok credential ↦ ok (record {
          credential_of = credential;
          valid_until = call.fetched + valid;
          reported_expiry = output.expires_at;
          usable_until = elim output.expires_at [
            | none ↦ none
            | some expires_at ↦
                some (call.fetched + ((expires_at - call.wall_left) - expiry_margin))
          ];
        })
      ]
    ]
  ]

  -- What follows a run that failed.
  unfoldable pub after_failure : Call → CredentialError → Held → Answered
  unfolding fallback
  after_failure call error held =
      let slot = record held.slot { failed = some (call.ended, error) } in
      elim (fallback call.ended slot) [
        | some credential ↦ record {
          result = ok (some credential);
          held = record held { slot = slot };
          ran = true;
        }
        | none ↦ record {
          result = err error;
          held = record { slot = slot; observed = record held.observed { current = none } };
          ran = true;
        }
      ]

  -- What follows a run that produced a value.
  unfoldable pub after_success : Call → Cached → Held → Answered
  unfolding was_rejected
  after_success call cached held =
      let again = was_rejected held.slot.invalidated cached.credential_of in
      record {
        result = ok (some cached.credential_of);
        held = record held {
          slot = record {
            cached = some cached;
            failed = none;
            invalidated = none;
            reproduced =
                if again then some (cached.credential_of, call.compared) else held.slot.reproduced;
          };
        };
        ran = true;
      }

  unfoldable pub run_command : Call → Held → Answered
  unfolding fetch observe after_failure after_success
  run_command call held =
      let held' = record held { observed = observe call (fetch call) held.observed } in
      elim (fetch call) [
        | err error ↦ after_failure call error held'
        | ok cached ↦ after_success call cached held'
      ]

  -- `credential`
  unfoldable pub credential : Call → Held → Answered
  unfolding run_command served spared
  credential call held = elim (served call held.slot) [
    | some answer ↦ record { result = answer; held = held; ran = false }
    | none ↦ elim (spared call held.slot) [
      | some answer ↦ record { result = answer; held = held; ran = false }
      | none ↦ run_command call held
    ]
  ]
