-- ===== src/BodyFields/Paths.antt =====
-- What stands at a path after src/body_field.rs.
use anthroxy.Prelude.{
  ◌≡◌, ◌≢◌, refl, ap, ◌∙◌, Bool, true, false, Option, none, some, List, [], ◌∷◌, ◌++◌,
  if◌then◌else◌, Text, text_eq, text_eq_self, text_eq→eq, All, arith, Bool-cases, inl, inr,
}
use anthroxy.Json.{Json, IsLawful}
use anthroxy.BodyFields.{BodyField, step_into, set, set_all}

-- Two paths lead apart at some step.
unfoldable pub parts : List Text → List Text → Bool
parts (k ∷ p) (l ∷ q) = if text_eq k l then parts p q else true
parts [] q = false
parts (k ∷ p) [] = false

module _ (j : Json) where
  open j use {Value, Object, as_object, get, insert, object}

  unfoldable pub get_path : Object → List Text → Option Value
  get_path o [] = none
  get_path o (key ∷ []) = get o key
  get_path o (key ∷ next ∷ rest) = elim (get o key) [
    | none ↦ none
    | some v ↦ elim (as_object v) [ none ↦ none | some inner ↦ get_path inner (next ∷ rest) ]
  ]

  module _ (lawful : IsLawful j) where
    get_path-empty : (p : List Text) → get_path j.empty p ≡ none
    unfolding get_path
    get_path-empty [] = refl
    get_path-empty (k ∷ []) = lawful.get-empty k
    get_path-empty (k ∷ l ∷ p) = ground (arith, lawful.get-empty k)

    get_path-step_into :
        (o : Object) (k l : Text) (p : List Text)
        → get_path (step_into j o k) (l ∷ p) ≡ get_path o (k ∷ l ∷ p)
    unfolding step_into get_path
    get_path-step_into o k l p = ground (arith, get_path-empty (l ∷ p))

    -- Below a key that holds an object.
    get_path-insert :
        (o inner : Object) (k l : Text) (p : List Text)
        → get_path (insert k (object inner) o) (k ∷ l ∷ p) ≡ get_path inner (l ∷ p)
    unfolding get_path
    get_path-insert o inner k l p = ground (
      arith,
      lawful.get-insert k k (object inner) o,
      text_eq_self k,
      lawful.as_object-object inner,
    )

    get_path-insert_other :
        (o : Object) (v : Value) (k l : Text) (p : List Text)
        → text_eq k l ≡ false
        → get_path (insert k v o) (l ∷ p) ≡ get_path o (l ∷ p)
    unfolding get_path
    get_path-insert_other o v k l [] h = ground (arith, lawful.get-insert k l v o, h)
    get_path-insert_other o v k l (m ∷ p) h = ground (arith, lawful.get-insert k l v o, h)

    get_path-one : (o : Object) (k : Text) (v : Value) → get_path (insert k v o) (k ∷ []) ≡ some v
    unfolding get_path
    get_path-one o k v = ground (arith, lawful.get-insert k k v o, text_eq_self k)

    pub get_path-set :
        (o : Object) (p : List Text) (v : Value) → p ≢ [] → get_path (set j o p v) p ≡ some v
    unfolding set
    get_path-set o [] v h = let no : ⊥ = h refl in elim no [ ]
    get_path-set o (k ∷ []) v h = get_path-one o k v
    get_path-set o (k ∷ l ∷ p) v h =
        get_path-insert o (set j (step_into j o k) (l ∷ p) v) k l p
        ∙ get_path-set (step_into j o k) (l ∷ p) v (λ e. cc)

    pub get_path-set_other :
        (o : Object) (p q : List Text) (v : Value)
        → parts p q ≡ true
        → get_path (set j o p v) q ≡ get_path o q
    unfolding set parts
    get_path-set_other o [] q v h = cc
    get_path-set_other o (k ∷ p) [] v h = cc
    get_path-set_other o (k ∷ []) (l ∷ q) v h = get_path-insert_other o v k l q (ground (arith, h))
    get_path-set_other o (k ∷ m ∷ p) (l ∷ []) v h =
        get_path-insert_other o (object (set j (step_into j o k) (m ∷ p) v)) k l []
          (ground (arith, h))
    get_path-set_other o (k ∷ m ∷ p) (l ∷ n ∷ q) v h = elim (Bool-cases (text_eq k l)) [
      | inr other ↦
          get_path-insert_other o (object (set j (step_into j o k) (m ∷ p) v)) k l (n ∷ q) other
      | inl same ↦ rw (← text_eq→eq k l same) (
          get_path-insert o (set j (step_into j o k) (m ∷ p) v) k n q
          ∙ get_path-set_other (step_into j o k) (m ∷ p) (n ∷ q) v (ground (arith, h, same))
          ∙ get_path-step_into o k n q)
    ]

    -- What a path held that every field's path parts from.
    pub get_path-set_all :
        (o : Object) (fields : List (BodyField Value)) (q : List Text)
        → All (λ f. parts f.path q ≡ true) fields
        → get_path (set_all j o fields) q ≡ get_path o q
    unfolding set_all
    get_path-set_all o [] q a = refl
    get_path-set_all o (f ∷ fields) q a =
        get_path-set_all (set j o f.path f.value) fields q a.1
        ∙ get_path-set_other o f.path q f.value a.0

    set_all-append :
        (o : Object) (fields others : List (BodyField Value))
        → set_all j o (fields ++ others) ≡ set_all j (set_all j o fields) others
    unfolding set_all
    set_all-append o [] others = refl
    set_all-append o (f ∷ fields) others = set_all-append (set j o f.path f.value) fields others

    -- After `set_all` each field stands at its path, when its path is not empty and the path of every
    -- later field parts from it: whatever the body was, and whatever the earlier fields are.
    pub set_all-get_path :
        (o : Object) (before after : List (BodyField Value)) (f : BodyField Value)
        → f.path ≢ []
        → All (λ g. parts g.path f.path ≡ true) after
        → get_path (set_all j o (before ++ f ∷ after)) f.path ≡ some f.value
    unfolding set_all
    set_all-get_path o before after f h a =
        ap (λ b. get_path b f.path) (set_all-append o before (f ∷ after))
        ∙ get_path-set_all (set j (set_all j o before) f.path f.value) after f.path a
        ∙ get_path-set (set_all j o before) f.path f.value h
