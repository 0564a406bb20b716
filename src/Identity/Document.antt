-- ===== src/Identity/Document.antt =====
-- `json.dumps(value, sort_keys=True, ensure_ascii=False, separators=(",", ":"), default=str)`.
use book_data_pipeline.Base.{
  ℕ, ◌+◌, ◌/◌, ◌%◌, Text, codes, Bool, ◌==◌, ltb, if◌then◌else◌, List, [], ◌∷◌, ◌++◌, text_lt,
}
use book_data_pipeline.Base.Sorting.{sort}

-- A number is given by the text that Python prints for it; `other` is a value that JSON has no form
-- for, given by its `str`.
mutual
  pub data Json : Type 0 where
    null : Json
    bool : Bool → Json
    num : Text → Json
    str : Text → Json
    other : Text → Json
    arr : Items → Json
    obj : Fields → Json

  pub data Items : Type 0 where
    nil : Items
    cons : Json → Items → Items

  pub data Fields : Type 0 where
    end : Fields
    field : Text → Json → Fields → Fields

-- A hexadecimal digit, in lower case.
hex_digit : ℕ → ℕ
hex_digit d = if ltb d 10 then 48 + d else 87 + d

-- The escapes of a JSON string: the quote, the backslash and the control characters.
pub escape : ℕ → Text
unfolding hex_digit
escape c =
    if c == 34
    then codes "\\\""
    else if c == 92
    then codes "\\\\"
    else if c == 10
    then codes "\\n"
    else if c == 13
    then codes "\\r"
    else if c == 9
    then codes "\\t"
    else if c == 8
    then codes "\\b"
    else if c == 12
    then codes "\\f"
    else if ltb c 32
    then codes "\\u00" ++ hex_digit (c / 16) ∷ hex_digit (c % 16) ∷ []
    else c ∷ []

escape_all : Text → Text
escape_all [] = []
escape_all (c ∷ s) = escape c ++ escape_all s

pub quoted : Text → Text
unfolding escape escape_all
quoted s = 34 ∷ (escape_all s ++ 34 ∷ [])

-- The texts joined by a comma.
pub comma_separated : List Text → Text
comma_separated [] = []
comma_separated (t ∷ []) = t
comma_separated (t ∷ t' ∷ rest) = t ++ 44 ∷ comma_separated (t' ∷ rest)

-- The order in which `sort_keys` puts the printed entries: by key.
abbrev pub key_lt : Text × Text → Text × Text → Bool
key_lt a b = text_lt a.0 b.0

entry : Text × Text → Text
unfolding quoted
entry (k, v) = quoted k ++ 58 ∷ v

pub entries : List (Text × Text) → List Text
unfolding entry
entries [] = []
entries (e ∷ es) = entry e ∷ entries es

unfoldable pub braced : List (Text × Text) → Text
unfolding comma_separated entries
braced es = 123 ∷ (comma_separated (entries (sort key_lt es)) ++ 125 ∷ [])

unfoldable mutual
  pub canonical_json : Json → Text
  canonical_json null = codes "null"
  canonical_json (bool b) = if b then codes "true" else codes "false"
  canonical_json (num t) = t
  canonical_json (str s) = quoted s
  canonical_json (other s) = quoted s
  canonical_json (arr xs) = 91 ∷ (comma_separated (printed_items xs) ++ 93 ∷ [])
  canonical_json (obj fs) = braced (printed_fields fs)

  pub printed_items : Items → List Text
  printed_items nil = []
  printed_items (cons x xs) = canonical_json x ∷ printed_items xs

  pub printed_fields : Fields → List (Text × Text)
  printed_fields end = []
  printed_fields (field k v fs) = (k, canonical_json v) ∷ printed_fields fs
