-- ===== src/Anthropic/Decode/Fields.antt =====
-- src/anthropic/decode.rs: the errors of decoding a request and the readers of fields. `too_deep` is the
-- model's own, the end of the fuel of the recursion on blocks.
use anthroxy.Prelude.{ℕ, ◌≡◌, Option, none, some, List, [], if◌then◌else◌, Text, Result, ok, err}
use anthroxy.Json.{Json, value_field}

pub data DecodeError : Type 0 where
  not_an_object : DecodeError
  -- `Field`
  wrong_field : Text → DecodeError
  -- index, role
  unknown_role : ℕ → Text → DecodeError
  -- index, block
  unsupported_block : ℕ → Text → DecodeError
  -- `Tool`: name, field
  incomplete_tool : Text → Text → DecodeError
  -- index, block, role
  wrong_role : ℕ → Text → Text → DecodeError
  too_deep : DecodeError

-- `ok_or`
abbrev pub ok_or {ℓ} : {A : Type ℓ} → DecodeError → Option A → Result DecodeError A
ok_or e none = err e
ok_or e (some a) = ok a

-- `unwrap_or`
abbrev pub unwrap_or {ℓ} : {A : Type ℓ} → A → Option A → A
unwrap_or a none = a
unwrap_or a (some b) = b

pub ok_or_lem {ℓ} :
    {A : Type ℓ} (e : DecodeError) (d : A) (o : Option A) {a : A}
    → ok_or e o ≡ ok a
    → a ≡ unwrap_or d o
ok_or_lem e d none h = cc
ok_or_lem e d (some b) h = cc

module _ (j : Json) where
  open j use {Value, Object, as_array, as_str, is_null, get}

  unfoldable pub field_str : Value → Text → Result DecodeError Text
  field_str v key = ok_or (wrong_field key) (value_field j as_str v key)

  unfoldable pub optional_array : Object → Text → Result DecodeError (List Value)
  optional_array root key = elim (get root key) [
    | none ↦ ok []
    | some v ↦ if is_null v then ok [] else ok_or (wrong_field key) (as_array v)
  ]

  unfoldable pub optional :
      {A : Type 0} → (Value → Option A) → Object → Text → Result DecodeError (Option A)
  optional as_type root key = elim (get root key) [
    | none ↦ ok none
    | some v ↦
        if is_null v
        then ok none
        else elim (as_type v) [ none ↦ err (wrong_field key) | some a ↦ ok (some a) ]
  ]
