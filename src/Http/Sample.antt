-- ===== src/Http/Sample.antt =====
-- A multimap of headers for runs: the list of its items.
use anthroxy.Prelude.{
  ◌≡◌, refl, Option, none, some, List, [], ◌∷◌, ◌++◌, if◌then◌else◌, Text, text_eq, text_eq_iff,
  arith,
}
use anthroxy.Http.{Http, IsLawful, values}

abbrev Items : Type 0
Items = List (Text × Text)

abbrev without : Text → Items → Items
without name [] = []
without name ((key, value) ∷ items) =
    let rest = without name items in if text_eq key name then rest else (key, value) ∷ rest

-- Any text but the empty one.
abbrev unless_empty : Text → Option Text
unless_empty [] = none
unless_empty (c ∷ t) = some (c ∷ t)

abbrev pub sample : Http
sample = record {
  Map = Items;
  empty = [];
  append = λ k v m. m ++ (k, v) ∷ [];
  insert = λ k v m. without k m ++ (k, v) ∷ [];
  remove = without;
  get_all = values;
  entries = λ m. m;
  header_name = unless_empty;
  header_value = λ t. some t;
  to_str = λ t. some t;
}

values-append :
    (n : Text) (m : Items) (k v : Text)
    → values n (m ++ (k, v) ∷ []) ≡ (if text_eq k n then values n m ++ v ∷ [] else values n m)
values-append n [] k v = ground arith
values-append n ((j, w) ∷ m) k v = ground (arith, values-append n m k v)

values-without :
    (n k : Text) (m : Items) → values n (without k m) ≡ (if text_eq k n then [] else values n m)
values-without n k [] = ground arith
values-without n k ((j, w) ∷ m) =
    ground (arith, values-without n k m, text_eq_iff j k, text_eq_iff k n, text_eq_iff j n)

values-insert :
    (n k v : Text) (m : Items)
    → values n (without k m ++ (k, v) ∷ []) ≡ (if text_eq k n then v ∷ [] else values n m)
values-insert n k v m = ground (arith, values-append n (without k m) k v, values-without n k m)

pub sample-IsLawful : IsLawful sample
sample-IsLawful = record {
  get_all-empty = λ n. refl;
  get_all-append = λ n k v m. values-append n m k v;
  get_all-insert = values-insert;
  get_all-remove = values-without;
  values-entries = λ n m. refl;
}
