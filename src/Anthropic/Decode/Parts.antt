-- ===== src/Anthropic/Decode/Parts.antt =====
-- The parts of a message in src/anthropic/decode.rs: what each role may carry, and the size that a
-- base64 text stands for.
use mathlib.Core.List.{reverse}
use anthroxy.Prelude.{
  ℕ, suc, ◌-◌, ◌*◌, ◌/◌, ◌==◌, Bool, true, false, Option, none, some, List, [], ◌∷◌, if◌then◌else◌,
  length, Text, ascii, text_eq,
}
use anthroxy.Ir.Requests.{
  Role, user, assistant, system, Part, text_of_part, image, tool_use, tool_result, Image,
}

-- `TEXT_SEPARATOR`
abbrev pub separator : Text
separator = 10 ∷ 10 ∷ []

-- How many `=` a text starts with.
unfoldable pub count_padding : Text → ℕ
count_padding [] = 0
count_padding (c ∷ t) = let rest = count_padding t in if c == b'=' then suc rest else 0

-- The bytes that a base64 text stands for.
unfoldable pub base64_bytes : Text → ℕ
unfolding count_padding
base64_bytes t = length t / 4 * 3 - count_padding (reverse t)

unfoldable pub role_of : Text → Option Role
role_of name =
    if text_eq name (ascii "user")
    then some user
    else if text_eq name (ascii "assistant")
    then some assistant
    else if text_eq name (ascii "system")
    then some system
    else none

module _ (Value Float : Type 0) where
  -- `Part::kind`
  abbrev pub kind : Part Value Float → Text
  kind (text_of_part t) = ascii "text"
  kind (image i) = ascii "image"
  kind (tool_use id name input) = ascii "tool_use"
  kind (tool_result id content images is_error) = ascii "tool_result"

  unfoldable pub allowed : Role → Part Value Float → Bool
  allowed user (text_of_part t) = true
  allowed user (image i) = true
  allowed user (tool_result id content images is_error) = true
  allowed user (tool_use id name input) = false
  allowed assistant (text_of_part t) = true
  allowed assistant (tool_use id name input) = true
  allowed assistant (image i) = false
  allowed assistant (tool_result id content images is_error) = false
  allowed system (text_of_part t) = true
  allowed system (image i) = false
  allowed system (tool_use id name input) = false
  allowed system (tool_result id content images is_error) = false

  -- The first part that the role may not carry.
  unfoldable pub find_wrong : Role → List (Part Value Float) → Option (Part Value Float)
  unfolding allowed
  find_wrong role [] = none
  find_wrong role (p ∷ parts) =
      let rest = find_wrong role parts in if allowed role p then rest else some p

  -- What a tool result's blocks have been gathered to.
  pub record Gathered : Type 0 where
    pub texts : List Text
    pub images : List Image
    pub references : List Text
