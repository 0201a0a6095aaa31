-- ===== src/Http.antt =====
-- What the program uses of the crate http, a multimap of headers above all, as the argument `h`. A
-- name is the text of a `HeaderName`, which is in lower case; a value is its bytes.
pub mod Sample
use anthroxy.Prelude.{
  ◌≡◌, Bool, Option, none, some, List, [], ◌∷◌, ◌++◌, if◌then◌else◌, Text, text_eq,
}

pub record Http : Type 1 where
  -- `HeaderMap`
  pub Map : Type 0
  pub empty : Map
  -- `append`, `insert` and `remove`, the name first.
  pub append : Text → Text → Map → Map
  pub insert : Text → Text → Map → Map
  pub remove : Text → Map → Map
  -- `get_all`, in order, and the items of its iteration.
  pub get_all : Text → Map → List Text
  pub entries : Map → List (Text × Text)
  -- `HeaderName::from_bytes`, `HeaderValue::from_str` and `HeaderValue::to_str`
  pub header_name : Text → Option Text
  pub header_value : Text → Option Text
  pub to_str : Text → Option Text

-- The values under a name among some items.
abbrev pub values : Text → List (Text × Text) → List Text
values name [] = []
values name ((key, value) ∷ items) =
    let rest = values name items in if text_eq key name then value ∷ rest else rest

-- What the documentation of `HeaderMap` says of these operations.
pub record IsLawful (h : Http) : Type 0 where
  pub get_all-empty : (n : Text) → h.get_all n h.empty ≡ []
  pub get_all-append :
      (n k v : Text) (m : h.Map)
      → h.get_all n (h.append k v m)
        ≡ (if text_eq k n then h.get_all n m ++ v ∷ [] else h.get_all n m)
  pub get_all-insert :
      (n k v : Text) (m : h.Map)
      → h.get_all n (h.insert k v m) ≡ (if text_eq k n then v ∷ [] else h.get_all n m)
  pub get_all-remove :
      (n k : Text) (m : h.Map)
      → h.get_all n (h.remove k m) ≡ (if text_eq k n then [] else h.get_all n m)
  pub values-entries : (n : Text) (m : h.Map) → values n (h.entries m) ≡ h.get_all n m
