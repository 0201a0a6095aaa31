-- ===== src/Credential/Command/Invalidate.antt =====
-- `invalidate` of src/credential/command.rs: a value that a backend rejected is forgotten.
use anthroxy.Prelude.{ℕ, ◌-◌, Bool, false, ◌&&◌, not, none, some, if◌then◌else◌, ltb}
use anthroxy.Credential.{Credential, credential_eq}
use anthroxy.Credential.Command.{Slot, Held, retry_after_failure}

-- `invalidate`, at the instant when it has the lock.
unfoldable pub is_reproduced : ℕ → Credential → Slot → Bool
unfolding credential_eq
is_reproduced now rejected slot = elim slot.reproduced [
  | none ↦ false
  | some (value, at) ↦ credential_eq value rejected && ltb (now - at) retry_after_failure
]

unfoldable pub is_cached : Credential → Slot → Bool
unfolding credential_eq
is_cached rejected slot = elim slot.cached [
  | none ↦ false
  | some cached ↦ credential_eq cached.credential_of rejected
]

unfoldable pub invalidate : ℕ → Credential → Held → Held
unfolding is_reproduced is_cached
invalidate now rejected held =
    if not (is_reproduced now rejected held.slot) && is_cached rejected held.slot
    then record {
      slot = record held.slot { cached = none; invalidated = some rejected };
      observed = record held.observed { current = none };
    }
    else held
