-- ===== src/Json/Tree.antt =====
-- JSON documents as trees, the lawful instance of the JSON crate for runs: its reader answers one
-- document, its printer one text.
use anthroxy.Prelude.{
  ℕ, suc, max, ◌<◌, ◌≡◌, refl, ap, Bool, true, false, String, Option, none, some, List, [], ◌∷◌,
  if◌then◌else◌, Text, ascii, text_eq, text_eq_iff, ok, All, arith,
}
use anthroxy.Json.{Json, IsLawful, value_get}

mutual
  pub data Tree : Type 0 where
    null : Tree
    flag : Bool → Tree
    amount : ℕ → Tree
    words : Text → Tree
    arr : Items → Tree
    obj : Fields → Tree

  pub data Items : Type 0 where
    nil : Items
    item : Tree → Items → Items

  pub data Fields : Type 0 where
    end : Fields
    entry : Text → Tree → Fields → Fields

abbrev pub items_of : List Tree → Items
items_of [] = nil
items_of (t ∷ ts) = item t (items_of ts)

abbrev pub list_of : Items → List Tree
list_of nil = []
list_of (item t ts) = t ∷ list_of ts

-- The value of a field, its name in ASCII.
abbrev pub with : String → Tree → Fields → Fields
with k v fs = entry (ascii k) v fs

unfoldable pub get_field : Fields → Text → Option Tree
get_field end k = none
get_field (entry n v fs) k = if text_eq n k then some v else get_field fs k

unfoldable pub put_field : Text → Tree → Fields → Fields
put_field k v end = entry k v end
put_field k v (entry n w fs) =
    let rest = put_field k v fs in if text_eq n k then entry k v fs else entry n w rest

get_field-put_field :
    (k n : Text) (v : Tree) (fs : Fields)
    → get_field (put_field k v fs) n ≡ (if text_eq k n then some v else get_field fs n)
unfolding get_field put_field
get_field-put_field k n v end = refl
get_field-put_field k n v (entry m w fs) =
    ground (arith, text_eq_iff k n, text_eq_iff m k, text_eq_iff m n, get_field-put_field k n v fs)

unfoldable mutual
  pub depth_of : Tree → ℕ
  depth_of null = 0
  depth_of (flag b) = 0
  depth_of (amount n) = 0
  depth_of (words t) = 0
  depth_of (arr ts) = suc (depth_items ts)
  depth_of (obj fs) = suc (depth_fields fs)

  depth_items : Items → ℕ
  depth_items nil = 0
  depth_items (item t ts) = max (depth_of t) (depth_items ts)

  depth_fields : Fields → ℕ
  depth_fields end = 0
  depth_fields (entry n t fs) = max (depth_of t) (depth_fields fs)

abbrev pub object_of : Tree → Option Fields
object_of (obj fs) = some fs
object_of _ = none

abbrev pub values_of : Fields → List Tree
values_of end = []
values_of (entry n v fs) = v ∷ values_of fs

abbrev pub array_of : Tree → Option (List Tree)
array_of (arr ts) = some (list_of ts)
array_of _ = none

abbrev pub string_of : Tree → Option Text
string_of (words t) = some t
string_of _ = none

abbrev pub number_of : Tree → Option ℕ
number_of (amount n) = some n
number_of _ = none

abbrev pub bool_of : Tree → Option Bool
bool_of (flag b) = some b
bool_of _ = none

abbrev pub null_of : Tree → Bool
null_of null = true
null_of _ = false

abbrev pub tree : Tree → Json
tree document = record {
  Value = Tree;
  Object = Fields;
  from_slice = λ t. ok document;
  as_object = object_of;
  as_array = array_of;
  as_str = string_of;
  as_u64 = number_of;
  is_null = null_of;
  as_bool = bool_of;
  Float = ℕ;
  as_f64 = number_of;
  get = get_field;
  values = values_of;
  empty = end;
  insert = put_field;
  object = obj;
  array = λ ts. arr (items_of ts);
  string = words;
  number = amount;
  float = amount;
  boolean = flag;
  depth = depth_of;
  to_string = λ v. ascii "{}";
}

list_of-depth_items :
    (n : ℕ) (ts : Items) → depth_items ts < n → All (λ b. depth_of b < n) (list_of ts)
unfolding depth_of
list_of-depth_items n nil h = tt
list_of-depth_items n (item t ts) h =
    (omega (arith, h), list_of-depth_items n ts (omega (arith, h)))

get_field-depth_of :
    (fs : Fields) (k : Text) (ts : Items)
    → get_field fs k ≡ some (arr ts)
    → depth_items ts < depth_fields fs
unfolding get_field depth_of
get_field-depth_of end k ts h = cc
get_field-depth_of (entry n v fs) k ts h = ground (arith, get_field-depth_of fs k ts)

tree-depth_items :
    (document v w : Tree) (k : Text) (items : List Tree)
    → value_get (tree document) v k ≡ some w
    → array_of w ≡ some items
    → All (λ b. depth_of b < depth_of v) items
unfolding depth_of
tree-depth_items document (obj fs) (arr ts) k items h e =
    let less : All (λ b. depth_of b < suc (depth_fields fs)) (list_of ts) =
      list_of-depth_items (suc (depth_fields fs)) ts
        (omega (arith, get_field-depth_of fs k ts h)) in
    let same : list_of ts ≡ items = cc in rw (← same) less
tree-depth_items document (obj fs) null k items h e = cc
tree-depth_items document (obj fs) (flag b) k items h e = cc
tree-depth_items document (obj fs) (amount n) k items h e = cc
tree-depth_items document (obj fs) (words t) k items h e = cc
tree-depth_items document (obj fs) (obj gs) k items h e = cc
tree-depth_items document null w k items h e = cc
tree-depth_items document (flag b) w k items h e = cc
tree-depth_items document (amount n) w k items h e = cc
tree-depth_items document (words t) w k items h e = cc
tree-depth_items document (arr ts) w k items h e = cc

list_of-items_of : (ts : List Tree) → list_of (items_of ts) ≡ ts
list_of-items_of [] = refl
list_of-items_of (t ∷ ts) = ap (λ us. t ∷ us) (list_of-items_of ts)

pub tree-IsLawful : (document : Tree) → IsLawful (tree document)
unfolding get_field
tree-IsLawful document = record {
  get-empty = λ k. refl;
  get-insert = λ k n v o. get_field-put_field k n v o;
  as_object-object = λ o. refl;
  as_array-array = λ ts. ap (λ us. some us) (list_of-items_of ts);
  as_str-string = λ t. refl;
  depth-items = λ v w k items. tree-depth_items document v w k items;
}
