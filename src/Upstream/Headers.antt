-- ===== src/Upstream/Headers.antt =====
-- src/upstream/headers.rs: the headers of a request to a backend and of the answer to the client, and
-- the fields of `Backend` that decide them. The crate http is the argument `h`, the names and values of
-- its constants are written out; `text::short` is the argument `short`.
pub mod Values
pub mod Private
pub mod Flags
pub mod Dropped
mod Tests
use anthroxy.Prelude.{
  ◌≡◌, refl, Bool, true, false, ◌&&◌, ◌||◌, not, Option, none, some, List, [], ◌∷◌, ◌++◌, map,
  if◌then◌else◌, is_empty, any, all, filter, get_elem?, Text, ascii, text_eq, split_on, join, trim,
  starts_with, Result, ok, err,
}
use anthroxy.Http.{Http}
use anthroxy.Config.DropHeaders.{HeaderPattern, drops}
use anthroxy.Config.Templates.{Part, parse, render}

pub data BackendKind : Type 0 where
  anthropic open_ai passthrough : BackendKind

abbrev pub is_open_ai : BackendKind → Bool
is_open_ai open_ai = true
is_open_ai anthropic = false
is_open_ai passthrough = false

-- `Backend`, the fields that the headers depend on.
pub record Backend : Type 0 where
  pub kind : BackendKind
  -- `ForcedHeaders`
  pub headers : List (Text × List Part)
  pub anthropic_beta : List Text
  pub drop_headers : List HeaderPattern
  pub forwards_client_auth : Bool

unfoldable pub is_one_of : List Text → Text → Bool
unfolding text_eq
is_one_of names name = any (text_eq name) names

abbrev pub hop_by_hop : List Text
hop_by_hop =
    ascii "connection"
    ∷ ascii "keep-alive"
    ∷ ascii "proxy-connection"
    ∷ ascii "proxy-authenticate"
    ∷ ascii "proxy-authorization"
    ∷ ascii "te"
    ∷ ascii "trailer"
    ∷ ascii "transfer-encoding"
    ∷ ascii "upgrade"
    ∷ []

unfoldable pub is_hop_by_hop : Text → Bool
unfolding is_one_of
is_hop_by_hop name = is_one_of hop_by_hop name

pub data DropReason : Type 0 where
  framing client_credential uncompressed backend_kind drop_headers overridden : DropReason

-- `dropped`
unfoldable pub dropped : Text → Backend → Option DropReason
unfolding is_hop_by_hop is_one_of text_eq drops
dropped name backend =
    if is_hop_by_hop name || is_one_of (ascii "host" ∷ ascii "content-length" ∷ []) name
    then some framing
    else if is_one_of (ascii "authorization" ∷ ascii "x-api-key" ∷ []) name
        && not backend.forwards_client_auth
    then some client_credential
    else if text_eq name (ascii "accept-encoding")
    then some uncompressed
    else if is_open_ai backend.kind
        && is_one_of (ascii "anthropic-version" ∷ ascii "anthropic-beta" ∷ []) name
    then some backend_kind
    else if drops backend.drop_headers name
    then some drop_headers
    else none

-- Appends a flag that is not in the list yet.
unfoldable pub push_flag : List Text → Text → List Text
unfolding is_one_of
push_flag flags flag = if is_one_of flags flag then flags else flags ++ flag ∷ []

unfoldable pub push_flags : List Text → List Text → List Text
unfolding push_flag
push_flags flags [] = flags
push_flags flags (flag ∷ more) = push_flags (push_flag flags flag) more

-- The flags of a header's value.
unfoldable pub flags_of : Text → List Text
unfolding split_on trim
flags_of value = filter (λ flag. not (is_empty flag)) (map trim (split_on 44 value))

-- What `response_headers` leaves out.
unfoldable pub is_framed : Text → Bool
unfolding is_hop_by_hop text_eq
is_framed name = is_hop_by_hop name || text_eq name (ascii "content-length")

abbrev pub is_dropped : Backend → Text → Bool
is_dropped backend name = elim (dropped name backend) [ none ↦ false | some reason ↦ true ]

module _ (h : Http) where
  -- The flags of the values that are text.
  unfoldable pub listed : List Text → List Text
  unfolding flags_of
  listed [] = []
  listed (value ∷ values) =
      let rest = listed values in
      elim (h.to_str value) [ none ↦ rest | some t ↦ flags_of t ++ rest ]

  unfoldable pub merge_beta : List Text → List Text → Text
  unfolding push_flags listed join
  merge_beta existing extra = join (ascii ",") (push_flags [] (listed existing ++ extra))

  -- The loop over the client's headers.
  unfoldable pub relay : (Text → Bool) → List (Text × Text) → h.Map → h.Map
  relay skips [] out = out
  relay skips ((name, value) ∷ items) out =
      relay skips items (if skips name then out else h.append name value out)

  -- A value of `ForcedHeaders::resolve`.
  unfoldable pub resolved : List Part → h.Map → Option Text
  unfolding render
  resolved template client = elim (render h template client) [
    | none ↦ none
    | some t ↦ h.header_value t
  ]

  -- The loop over the forced headers.
  unfoldable pub force : List (Text × List Part) → h.Map → h.Map → h.Map
  unfolding resolved
  force [] client out = out
  force ((name, template) ∷ forced) client out =
      force forced client (elim (resolved template client) [
        | some value ↦ h.insert name value out
        | none ↦ h.remove name out
      ])

  -- The flags of `anthropic_beta`; none is the panic of an `expect`.
  unfoldable pub with_beta : List Text → h.Map → Option h.Map
  unfolding merge_beta
  with_beta extra out =
      if is_empty extra
      then some out
      else elim (h.header_value (merge_beta (h.get_all (ascii "anthropic-beta") out) extra)) [
        | none ↦ none
        | some value ↦ some (h.insert (ascii "anthropic-beta") value out)
      ]

  -- `ForcedHeaders::new` with the names and values of the configuration; none is the panic of an
  -- `expect`.
  unfoldable pub forced_headers :
      (Text → Text) → List (Text × Text) → Option (List (Text × List Part))
  unfolding parse
  forced_headers short [] = some []
  forced_headers short ((written, value) ∷ config) =
      let rest = forced_headers short config in
      elim (h.header_name written) [
        | none ↦ none
        | some name ↦ elim (parse h short value) [
          | err e ↦ none
          | ok template ↦ elim rest [ none ↦ none | some forced ↦ some ((name, template) ∷ forced) ]
        ]
      ]

  unfoldable pub upstream_headers : h.Map → Backend → Option h.Map
  unfolding relay force with_beta dropped
  upstream_headers client backend =
      with_beta backend.anthropic_beta
        (force backend.headers client (relay (is_dropped backend) (h.entries client) h.empty))

  -- `response_headers`
  unfoldable pub response_headers : h.Map → h.Map
  unfolding relay is_framed
  response_headers upstream = relay is_framed (h.entries upstream) h.empty

  -- `is_event_stream`
  unfoldable pub is_event_stream : h.Map → Bool
  is_event_stream headers = elim (get_elem? (h.get_all (ascii "content-type") headers) 0) [
    | none ↦ false
    | some value ↦ elim (h.to_str value) [
      | none ↦ false
      | some t ↦ starts_with (ascii "text/event-stream") t
    ]
  ]
