-- ===== src/Scenario/Emit/Json.antt =====
-- `json.dumps` with `separators=(",", ":")`: JSON values of texts, arrays and objects.
use cryptocourt.Base.{ℕ, ◌+◌, ◌-◌, ◌/◌, ◌%◌, ◌&&◌, [], ◌∷◌, ◌++◌, leb, ltb, ◌==◌, if◌then◌else◌}
use cryptocourt.Base.Text.{Text}

mutual
  pub data Json : Type 0 where
    text : Text → Json
    arr : Items → Json
    obj : Fields → Json

  pub data Items : Type 0 where
    nil : Items
    cons : Json → Items → Items

  pub data Fields : Type 0 where
    end : Fields
    field : Text → Json → Fields → Fields

hex_digit : ℕ → ℕ
hex_digit d = if ltb d 10 then b'0' + d else b'a' + d - 10

-- `\uXXXX`.
hex_escape : ℕ → Text
unfolding hex_digit
hex_escape c =
    b'\\'
    ∷ b'u'
    ∷ hex_digit (c / 4096 % 16)
    ∷ hex_digit (c / 256 % 16)
    ∷ hex_digit (c / 16 % 16)
    ∷ hex_digit (c % 16)
    ∷ []

-- One character, with `ensure_ascii`: what is not printable ASCII is escaped, beyond 16 bits as a
-- surrogate pair.
escape_char : ℕ → Text
unfolding hex_escape
escape_char c =
    if c == b'"'
    then b'\\' ∷ b'"' ∷ []
    else if c == b'\\'
    then b'\\' ∷ b'\\' ∷ []
    else if leb 32 c && leb c 126
    then c ∷ []
    else if c == 10
    then b'\\' ∷ b'n' ∷ []
    else if c == 13
    then b'\\' ∷ b'r' ∷ []
    else if c == 9
    then b'\\' ∷ b't' ∷ []
    else if c == 8
    then b'\\' ∷ b'b' ∷ []
    else if c == 12
    then b'\\' ∷ b'f' ∷ []
    else if ltb c 65536
    then hex_escape c
    else hex_escape (55296 + (c - 65536) / 1024) ++ hex_escape (56320 + (c - 65536) % 1024)

escape : Text → Text
unfolding escape_char
escape [] = []
escape (c ∷ s) = escape_char c ++ escape s

unfoldable pub dump_text : Text → Text
unfolding escape
dump_text s = b'"' ∷ (escape s ++ (b'"' ∷ []))

unfoldable mutual
  unfolding dump_text

  pub dumps : Json → Text
  dumps (text s) = dump_text s
  dumps (arr items) = b'[' ∷ dump_items items
  dumps (obj fields) = b'{' ∷ dump_fields fields

  -- The items, and the closing bracket.
  pub dump_items : Items → Text
  dump_items nil = b']' ∷ []
  dump_items (cons v nil) = dumps v ++ (b']' ∷ [])
  dump_items (cons v (cons w items)) = dumps v ++ (b',' ∷ dump_items (cons w items))

  pub dump_fields : Fields → Text
  dump_fields end = b'}' ∷ []
  dump_fields (field k v end) = dump_text k ++ (b':' ∷ (dumps v ++ (b'}' ∷ [])))
  dump_fields (field k v (field k' v' fields)) =
      dump_text k ++ (b':' ∷ (dumps v ++ (b',' ∷ dump_fields (field k' v' fields))))
