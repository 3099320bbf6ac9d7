-- ===== src/Python/Json.antt =====
-- What `json.loads` returns, as far as the capability files use it: numbers are natural, and an
-- object is a `dict` with its keys in the file's order.
use tls_interop_framework.Prelude.{
  Bool, List, [], false, if◌then◌else◌, is_empty, ltb, not, suc, true, zero, ℕ, ◌%◌, ◌++◌, ◌+◌, ◌/◌,
  ◌==◌, ◌∷◌,
}
use tls_interop_framework.Python.Dict.{Dict}
use tls_interop_framework.Python.Text.{Text, has_char, join, lit, text_eq}

mutual
  pub data Json : Type 0 where
    null : Json
    bool : Bool → Json
    num : ℕ → Json
    text : Text → Json
    arr : Items → Json
    obj : Fields → Json

  pub data Items : Type 0 where
    nil : Items
    cons : Json → Items → Items

  pub data Fields : Type 0 where
    end : Fields
    field : Text → Json → Fields → Fields

-- `block.get(key)`
unfoldable pub get : Text → Fields → Json
get k end = null
get k (field j v fs) = if text_eq j k then v else get k fs

-- `key in block`
unfoldable pub has : Text → Fields → Bool
has k end = false
has k (field j v fs) = if text_eq j k then true else has k fs

unfoldable pub items : Fields → Dict Json
items end = []
items (field j v fs) = (j, v) ∷ items fs

unfoldable pub elements : Items → List Json
elements nil = []
elements (cons v vs) = v ∷ elements vs

-- The elements of a list, none of any other value.
unfoldable pub elements_of : Json → List Json
elements_of (arr vs) = elements vs
elements_of _ = []

-- `bool(value)`
unfoldable pub truthy : Json → Bool
truthy null = false
truthy (bool b) = b
truthy (num n) = not (n == 0)
truthy (text s) = not (is_empty s)
truthy (arr nil) = false
truthy (arr (cons v vs)) = true
truthy (obj end) = false
truthy (obj (field k v fs)) = true

-- `value is False`
unfoldable pub is_false : Json → Bool
is_false (bool false) = true
is_false _ = false

-- `value if isinstance(value, dict) else {}`
unfoldable pub fields_of : Json → Fields
fields_of (obj fs) = fs
fields_of _ = end

unfoldable pub is_dict : Json → Bool
is_dict (obj fs) = true
is_dict _ = false

-- `v or w`
unfoldable pub or_json : Json → Json → Json
or_json v w = if truthy v then v else w

unfoldable pub digits : ℕ → ℕ → Text → Text
digits zero n out = out
digits (suc f) n out = elim (ltb n 10) [
  | true ↦ (48 + n) ∷ out
  | false ↦ digits f (n / 10) ((48 + n % 10) ∷ out)
]

-- `str(n)`; a number has at most as many digits as its value plus one.
unfoldable pub decimal : ℕ → Text
unfolding digits
decimal n = digits (suc n) n []

escape : ℕ → ℕ → Text
escape quote c =
    if c == quote
    then b'\\' ∷ c ∷ []
    else if c == b'\\'
    then b'\\' ∷ b'\\' ∷ []
    else if c == 10
    then b'\\' ∷ b'n' ∷ []
    else if c == 13
    then b'\\' ∷ b'r' ∷ []
    else if c == 9
    then b'\\' ∷ b't' ∷ []
    else c ∷ []

escape_all : ℕ → Text → Text
unfolding escape
escape_all quote [] = []
escape_all quote (c ∷ s) = escape quote c ++ escape_all quote s

-- `repr(s)` of printable text, tabs and line ends.
unfoldable pub repr_text : Text → Text
unfolding escape_all
repr_text s =
    let quote : ℕ = if has_char 39 s then (if has_char 34 s then 39 else 34) else 39 in
    quote ∷ (escape_all quote s ++ quote ∷ [])

mutual
  unfolding repr_text

  repr : Json → Text
  repr null = lit "None"
  repr (bool true) = lit "True"
  repr (bool false) = lit "False"
  repr (num n) = decimal n
  repr (text s) = repr_text s
  repr (arr vs) = b'[' ∷ (join (lit ", ") (repr_items vs) ++ b']' ∷ [])
  repr (obj fs) = b'{' ∷ (join (lit ", ") (repr_fields fs) ++ b'}' ∷ [])

  repr_items : Items → List Text
  repr_items nil = []
  repr_items (cons v vs) = repr v ∷ repr_items vs

  repr_fields : Fields → List Text
  repr_fields end = []
  repr_fields (field k v fs) = (repr_text k ++ (lit ": " ++ repr v)) ∷ repr_fields fs

-- `str(value)`
unfoldable pub py_str : Json → Text
unfolding repr
py_str (text s) = s
py_str v = repr v
