-- ===== src/Json.antt =====
-- The values that `json.loads` returns and `json.dumps` takes, and Python's `int`, `str` and `or` on
-- them. A float is carried as its `repr` with what `int` makes of it (nothing for NaN and infinities).
use Prim.Native.String.{◌++◌ as ◌<>◌}
use anomaly_metric_creator.Base.{
  String, ◌≡◌, refl, ap, Bool, true, false, List, [], ◌∷◌, Option, none, some, ℤ, pos, ◌==◌,
  string_eq, if◌then◌else◌,
}
use anomaly_metric_creator.Base.Dict.{Dict}
use anomaly_metric_creator.Base.Text.{show_ℤ, int_of_text}
use anomaly_metric_creator.Exec.{Error, Result, ok, err, value_error, type_error, overflow_error}

mutual
  pub data Json : Type 0 where
    null : Json
    bool : Bool → Json
    num : ℤ → Json
    float : String → Option ℤ → Json
    str : String → Json
    arr : Items → Json
    obj : Fields → Json

  pub data Items : Type 0 where
    nil : Items
    cons : Json → Items → Items

  pub data Fields : Type 0 where
    end : Fields
    field : String → Json → Fields → Fields

-- What stands in a file: a JSON text, by its value, or bytes that `read_text` or `json.loads` refuse.
pub data Content : Type 0 where
  json : Json → Content
  not_json not_utf8 unreadable : Content

-- A dict with text keys and any values.
abbrev pub Row : Type 0
Row = Dict Json

abbrev pub elements : Items → List Json
elements nil = []
elements (cons j js) = j ∷ elements js

abbrev pub items : List Json → Items
items [] = nil
items (j ∷ js) = cons j (items js)

abbrev pub entries : Fields → Row
entries end = []
entries (field k j fs) = (k, j) ∷ entries fs

abbrev pub fields : Row → Fields
fields [] = end
fields ((k, j) ∷ r) = field k j (fields r)

pub elements-items : (js : List Json) → elements (items js) ≡ js
elements-items [] = refl
elements-items (j ∷ js) = ap (λ r. j ∷ r) (elements-items js)

pub entries-fields : (r : Row) → entries (fields r) ≡ r
entries-fields [] = refl
entries-fields ((k, j) ∷ r) = ap (λ s. (k, j) ∷ s) (entries-fields r)

-- What `int` raises at a float without a whole part.
abbrev pub unreadable_float : String → Error
unreadable_float text = if text == "nan" then value_error text else overflow_error

-- `int(j)`.
unfoldable pub int_of : Json → Result ℤ
int_of null = err type_error
int_of (bool true) = ok (pos 1)
int_of (bool false) = ok (pos 0)
int_of (num n) = ok n
int_of (float text n) = elim n [ none ↦ err (unreadable_float text) | some m ↦ ok m ]
int_of (str s) = elim (int_of_text s) [ none ↦ err (value_error s) | some m ↦ ok m ]
int_of (arr _) = err type_error
int_of (obj _) = err type_error

-- `j == s` for a text `s`.
unfoldable pub is_text : Json → String → Bool
is_text (str t) s = t == s
is_text _ s = false

-- `str(j)`. The quotes and escapes inside a container's text are not modelled.
mutual
  pub str_of : Json → String
  str_of null = "None"
  str_of (bool true) = "True"
  str_of (bool false) = "False"
  str_of (num n) = show_ℤ n
  str_of (float text n) = text
  str_of (str s) = s
  str_of (arr js) = "[" <> str_of_items js
  str_of (obj fs) = "{" <> str_of_fields fs

  str_of_items : Items → String
  str_of_items nil = "]"
  str_of_items (cons j js) = str_of j <> ", " <> str_of_items js

  str_of_fields : Fields → String
  str_of_fields end = "}"
  str_of_fields (field k j fs) = k <> ": " <> str_of j <> ", " <> str_of_fields fs

pub str_of-str : (s : String) → str_of (str s) ≡ s
unfolding str_of
str_of-str s = refl
