-- ===== src/Json/Sample.antt =====
-- A JSON reader for runs: it knows one document, a chat completion that says "hi".
use anthroxy.Prelude.{
  false, ◌||◌, Option, none, some, List, [], ◌∷◌, if◌then◌else◌, Text, ascii, text_eq, Result, ok,
  err,
}
use anthroxy.Json.{Json}

-- The values of the document.
pub data Node : Type 0 where
  root choices choice delta content : Node

abbrev read : Text → Result Text Node
read t = if text_eq t (ascii "{hi}") then ok root else err (ascii "expected value")

abbrev an_object : Node → Option Node
an_object root = some root
an_object choice = some choice
an_object delta = some delta
an_object _ = none

abbrev an_array : Node → Option (List Node)
an_array choices = some (choice ∷ [])
an_array _ = none

abbrev a_string : Node → Option Text
a_string content = some (ascii "hi")
a_string _ = none

-- The key of the one node below another.
abbrev key_of : Node → Option (Text × Node)
key_of root = some (ascii "choices", choices)
key_of delta = some (ascii "content", content)
key_of _ = none

abbrev below : Node → Text → Option Node
below choice key =
    if text_eq key (ascii "message") || text_eq key (ascii "delta") then some delta else none
below n key = elim (key_of n) [ none ↦ none | some (k, v) ↦ if text_eq k key then some v else none ]

abbrev pub sample : Json
sample = record {
  Value = Node;
  Object = Node;
  from_slice = read;
  as_object = an_object;
  as_array = an_array;
  as_str = a_string;
  as_u64 = λ n. none;
  is_null = λ n. false;
  as_bool = λ n. none;
  Float = Unit;
  as_f64 = λ n. none;
  get = below;
  values = λ o. [];
  empty = delta;
  insert = λ k v o. o;
  object = λ n. n;
  array = λ vs. choices;
  string = λ t. content;
  number = λ n. content;
  float = λ x. content;
  boolean = λ b. content;
  depth = λ n. 0;
  to_string = λ n. ascii "{hi}";
}
