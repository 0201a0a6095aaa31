-- ===== src/Credential.antt =====
-- src/credential: the secrets that backends are sent. Credential is `Credential` of mod.rs with
-- `CredentialHeader` of src/config/credential_header.rs. The crate http is the argument `h`.
pub mod Command
use anthroxy.Prelude.{
  ℕ, ◌+◌, ◌-◌, ◌*◌, ◌≡◌, refl, Bool, true, false, ◌&&◌, Option, none, some, List, [], ◌∷◌, ◌++◌,
  if◌then◌else◌, length, take, drop, ltb, Text, ascii, text_eq, text_eq_iff, continues, join,
  Result, ok, err, arith,
}
use anthroxy.Http.{Http}

-- The name is that of a `HeaderName`.
pub record CredentialHeader : Type 0 where
  pub name : Text
  pub scheme : Option Text

-- `CredentialHeader::value`
unfoldable pub header_line : CredentialHeader → Text → Text
header_line header secret = elim header.scheme [
  | none ↦ secret
  | some scheme ↦ scheme ++ (32 ∷ secret)
]

pub record Credential : Type 0 where
  pub header : CredentialHeader
  pub secret : Text

-- The durations and the times of `CredentialError` are numbers, the errors it carries their text.
pub data CredentialError : Type 0 where
  missing_env : Text → CredentialError
  not_header_safe : CredentialError
  spawn : Text → CredentialError
  timeout : ℕ → CredentialError
  command_failed : Text → Text → CredentialError
  empty : CredentialError
  output_too_large : ℕ → CredentialError
  json : Text → CredentialError
  expired : ℕ → CredentialError

-- `==` on headers and on credentials, which is derived.
unfoldable pub scheme_eq : Option Text → Option Text → Bool
unfolding text_eq
scheme_eq none none = true
scheme_eq none (some t) = false
scheme_eq (some s) none = false
scheme_eq (some s) (some t) = text_eq s t

unfoldable pub credential_eq : Credential → Credential → Bool
unfolding text_eq scheme_eq
credential_eq a b =
    (text_eq a.header.name b.header.name && scheme_eq a.header.scheme b.header.scheme)
    && text_eq a.secret b.secret

scheme_eq-eq : (s t : Option Text) → scheme_eq s t ≡ true → s ≡ t
unfolding scheme_eq
scheme_eq-eq none none h = refl
scheme_eq-eq none (some t) h = cc
scheme_eq-eq (some s) none h = cc
scheme_eq-eq (some s) (some t) h = ground (arith, h, text_eq_iff s t)

scheme_eq_self : (s : Option Text) → scheme_eq s s ≡ true
unfolding scheme_eq
scheme_eq_self none = refl
scheme_eq_self (some s) = ground (arith, text_eq_iff s s)

pub credential_eq-eq : (a b : Credential) → credential_eq a b ≡ true → a ≡ b
unfolding credential_eq
credential_eq-eq a b h =
    let names : a.header.name ≡ b.header.name =
      ground (arith, h, text_eq_iff a.header.name b.header.name) in
    let schemes : a.header.scheme ≡ b.header.scheme =
      scheme_eq-eq a.header.scheme b.header.scheme (ground (arith, h)) in
    let secrets : a.secret ≡ b.secret = ground (arith, h, text_eq_iff a.secret b.secret) in cc

pub credential_eq_self : (a : Credential) → credential_eq a a ≡ true
unfolding credential_eq
credential_eq_self a = ground (
  arith,
  text_eq_iff a.header.name a.header.name,
  scheme_eq_self a.header.scheme,
  text_eq_iff a.secret a.secret,
)

-- The characters of a text.
unfoldable pub chars : Text → List Text
chars [] = []
chars (b ∷ t) = elim (chars t) [
  | [] ↦ (b ∷ []) ∷ []
  | char ∷ more ↦ elim char [
    | [] ↦ (b ∷ []) ∷ more
    | c ∷ cs ↦ if continues c then (b ∷ c ∷ cs) ∷ more else (b ∷ []) ∷ (c ∷ cs) ∷ more
  ]
]

-- `SHOWN` and `HIDDEN`
abbrev pub shown : ℕ
shown = 4

abbrev pub hidden : ℕ
hidden = 8

abbrev stars : List Text → Text
stars [] = []
stars (c ∷ cs) = 42 ∷ stars cs

-- `mask`
unfoldable pub mask : Text → Text
unfolding chars join
mask secret =
    let cs = chars secret in
    if ltb (length cs) (2 * shown + hidden)
    then stars cs
    else join [] (take shown cs) ++ (0xe2 ∷ 0x80 ∷ 0xa6 ∷ join [] (drop (length cs - shown) cs))

-- `Credential::new`
unfoldable pub new_credential : Http → CredentialHeader → Text → Result CredentialError Credential
unfolding header_line
new_credential h header secret = elim (h.header_value (header_line header secret)) [
  | none ↦ err not_header_safe
  | some line ↦ ok (record { header = header; secret = secret })
]
