-- ===== src/Upstream/Headers/Tests.antt =====
-- Runs of the relays of headers.
use anthroxy.Prelude.{
  ◌≡◌, refl, true, false, some, List, [], ◌∷◌, ◌||◌, if◌then◌else◌, Text, ascii, text_eq, split_on,
}
use anthroxy.Http.Sample.{sample, sample-IsLawful}
use anthroxy.Config.Templates.{is_client_credential, text, header}
use anthroxy.Upstream.Headers.{
  Backend, anthropic, forced_headers, upstream_headers, is_one_of, merge_beta,
}
use anthroxy.Upstream.Headers.Values.{sent, upstream_headers_lem}
use anthroxy.Upstream.Headers.Private.{public_items, upstream_headers-private}
use anthroxy.Upstream.Headers.Flags.{IsUnique, client_has, merge_beta-round}

abbrev shown : Text → Text
shown t = t

abbrev forced_config : List (Text × Text)
forced_config = (ascii "x-session", ascii "cc-{header:x-app}") ∷ []

abbrev backend : Backend
backend = record {
  kind = anthropic;
  headers = (ascii "x-session", text (ascii "cc-") ∷ header (ascii "x-app") ∷ []) ∷ [];
  anthropic_beta = ascii "b2" ∷ [];
  drop_headers = [];
  forwards_client_auth = false;
}

abbrev request : Text → List (Text × Text)
request key =
    (ascii "x-api-key", key)
    ∷ (ascii "x-app", ascii "cli")
    ∷ (ascii "anthropic-beta", ascii "b1, b2")
    ∷ (ascii "host", ascii "here")
    ∷ []

abbrev sent_on : List (Text × Text)
sent_on =
    (ascii "x-app", ascii "cli")
    ∷ (ascii "x-session", ascii "cc-cli")
    ∷ (ascii "anthropic-beta", ascii "b1,b2")
    ∷ []

backend-forced_headers : forced_headers sample shown forced_config ≡ some backend.headers
unfolding forced_headers
backend-forced_headers = refl

request-upstream_headers : upstream_headers sample (request (ascii "k")) backend ≡ some sent_on
unfolding upstream_headers
request-upstream_headers = refl

upstream_headers_lem_example : sample.get_all (ascii "x-session") sent_on ≡ (
    if false || true
    then sent sample backend (ascii "x-session") (request (ascii "k"))
    else ascii "b1,b2" ∷ [])
unfolding upstream_headers
upstream_headers_lem_example =
    upstream_headers_lem sample sample-IsLawful backend (ascii "x-session") (request (ascii "k"))
      sent_on request-upstream_headers

upstream_headers-private_example :
    upstream_headers sample (request (ascii "k")) backend
    ≡ upstream_headers sample (request (ascii "l")) backend
unfolding public_items text_eq is_client_credential
upstream_headers-private_example =
    upstream_headers-private sample sample-IsLawful shown forced_config backend
      (request (ascii "k")) (request (ascii "l")) backend-forced_headers refl refl

merge_beta-round_example :
    IsUnique (split_on 44 (merge_beta sample (ascii "b1, b2" ∷ []) (ascii "b2" ∷ [])))
    × ((f : Text)
        → is_one_of (split_on 44 (merge_beta sample (ascii "b1, b2" ∷ []) (ascii "b2" ∷ []))) f
          ≡ client_has sample f (ascii "b1, b2" ∷ []) || is_one_of (ascii "b2" ∷ []) f)
merge_beta-round_example = merge_beta-round sample (ascii "b1, b2" ∷ []) (ascii "b2") [] (refl, tt)
