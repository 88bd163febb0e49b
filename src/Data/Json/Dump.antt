-- ===== src/Data/Json/Dump.antt =====
-- `json.dumps(value, ensure_ascii=False, indent=2)`; a number is written as its literal.
use ai_writing.Common.{
  ℕ, zero, suc, ◌+◌, ◌-◌, Bool, true, false, [], ◌∷◌, ◌++◌, Str, codes, ltb, ◌==◌, nat_eq,
  if◌then◌else◌,
}
use ai_writing.Data.Json.{
  Json, null, bool, number, string, array, object, Items, nil, cons, Fields, end, field,
}

abbrev hex_digit : ℕ → ℕ
hex_digit n = if ltb n 10 then n + b'0' else n + 87

-- A control character below 32, as `\u00..`.
abbrev control : ℕ → Str
control c =
    if ltb c 16
    then codes "\\u000" ++ hex_digit c ∷ []
    else codes "\\u001" ++ hex_digit (c - 16) ∷ []

unfoldable pub escape : ℕ → Str
escape c =
    if c == b'"'
    then codes "\\\""
    else if c == b'\\'
    then codes "\\\\"
    else if c == 10
    then codes "\\n"
    else if c == 13
    then codes "\\r"
    else if c == 9
    then codes "\\t"
    else if c == 12
    then codes "\\f"
    else if c == 8
    then codes "\\b"
    else if ltb c 32
    then control c
    else c ∷ []

unfoldable pub escape_all : Str → Str
escape_all [] = []
escape_all (c ∷ s) = escape c ++ escape_all s

abbrev quoted : Str → Str
quoted s = b'"' ∷ escape_all s ++ b'"' ∷ []

unfoldable pub spaces : ℕ → Str
spaces zero = []
spaces (suc n) = 32 ∷ 32 ∷ spaces n

abbrev new_line : ℕ → Str
new_line level = 10 ∷ spaces level

abbrev literal : Bool → Str
literal true = codes "true"
literal false = codes "false"

unfoldable mutual
  pub dump : ℕ → Json → Str
  dump level null = codes "null"
  dump level (bool b) = literal b
  dump level (number s) = s
  dump level (string s) = quoted s
  dump level (array nil) = codes "[]"
  dump level (array (cons v vs)) =
      b'[' ∷ new_line (level + 1)
      ++ dump (level + 1) v
      ++ dump_items (level + 1) vs
      ++ new_line level
      ++ b']' ∷ []
  dump level (object end) = codes "{}"
  dump level (object (field k v fs)) =
      b'{' ∷ new_line (level + 1)
      ++ quoted k
      ++ codes ": "
      ++ dump (level + 1) v
      ++ dump_fields (level + 1) fs
      ++ new_line level
      ++ b'}' ∷ []

  -- The members after the first.
  pub dump_items : ℕ → Items → Str
  dump_items level nil = []
  dump_items level (cons v vs) = b',' ∷ new_line level ++ dump level v ++ dump_items level vs

  pub dump_fields : ℕ → Fields → Str
  dump_fields level end = []
  dump_fields level (field k v fs) =
      b',' ∷ new_line level ++ quoted k ++ codes ": " ++ dump level v ++ dump_fields level fs
