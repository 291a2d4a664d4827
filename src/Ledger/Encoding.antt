-- ===== src/Ledger/Encoding.antt =====
-- What the ledger uses of Python's library on bytes: `json.dumps(data, sort_keys=True)`, `bytes.hex`
-- and `bytes.fromhex`. Bytes are numbers. `json.dumps` writes ASCII, so its text is its UTF-8.
use Prim.Native.Nat.{Ordering}
use Prim.Native.Char.{Char, code}
use Prim.Native.String.{char_at, compare}
use openagent_control.Prelude.{
  ℕ, zero, suc, ◌+◌, ◌-◌, ◌*◌, ◌/◌, ◌%◌, String, ◌≡◌, refl, Bool, true, false, ◌&&◌, ◌||◌, Option,
  none, some, List, [], ◌∷◌, ◌++◌, map, ltb, leb, eqb, if◌then◌else◌,
}
use openagent_control.Json.{
  ℤ, pos, negsuc, Json, null, bool, num, str, arr, obj, Items, nil, cons, Fields, end, field,
}

abbrev pub Bytes : Type 0
Bytes = List ℕ

-- The code points of a text: its bytes, if it is ASCII.
abbrev pub codes : String → Bytes
codes String.[] = []
codes (String.◌∷◌ c s) = code c ∷ codes s

unfoldable pub hex_digit : ℕ → Char
hex_digit n = char_at "0123456789abcdef" n

-- `bytes.hex()`
unfoldable pub hex : Bytes → String
hex [] = ""
hex (b ∷ bs) = String.◌∷◌ (hex_digit (b / 16)) (String.◌∷◌ (hex_digit (b % 16)) (hex bs))

unfoldable pub digit_value : ℕ → Option ℕ
digit_value c =
    if leb 48 c && leb c 57
    then some (c - 48)
    else if leb 97 c && leb c 102
    then some (c - 87)
    else if leb 65 c && leb c 70
    then some (c - 55)
    else none

abbrev pub join_digits : Option ℕ → Option ℕ → Option ℕ
join_digits (some h) (some l) = some (h * 16 + l)
join_digits _ _ = none

unfoldable pub pair_value : Char → Char → Option ℕ
pair_value c d = join_digits (digit_value (code c)) (digit_value (code d))

unfoldable pub is_ascii_space : Char → Bool
is_ascii_space c = eqb (code c) 32 || (leb 9 (code c) && leb (code c) 13)

abbrev pub add_byte : Option ℕ → Option Bytes → Option Bytes
add_byte (some b) (some bs) = some (b ∷ bs)
add_byte _ _ = none

-- `bytes.fromhex(s)`, which skips white space between the bytes; `none` where it raises.
unfoldable pub fromhex : String → Option Bytes
fromhex String.[] = some []
fromhex (String.◌∷◌ c String.[]) = if is_ascii_space c then some [] else none
fromhex (String.◌∷◌ c (String.◌∷◌ d s)) =
    let skipped = fromhex (String.◌∷◌ d s) in
    let rest = fromhex s in if is_ascii_space c then skipped else add_byte (pair_value c d) rest

abbrev hex4 : ℕ → Bytes
hex4 n = codes (hex (n / 256 ∷ n % 256 ∷ []))

-- A character of a JSON string under `ensure_ascii`: what is outside ASCII goes out as UTF-16.
escape : ℕ → Bytes
escape c =
    if eqb c 34
    then codes "\\\""
    else if eqb c 92
    then codes "\\\\"
    else if eqb c 10
    then codes "\\n"
    else if eqb c 13
    then codes "\\r"
    else if eqb c 9
    then codes "\\t"
    else if eqb c 12
    then codes "\\f"
    else if eqb c 8
    then codes "\\b"
    else if leb 32 c && leb c 126
    then c ∷ []
    else if ltb c 65536
    then codes "\\u" ++ hex4 c
    else codes "\\u"
      ++ hex4 (55296 + (c - 65536) / 1024)
      ++ codes "\\u"
      ++ hex4 (56320 + (c - 65536) % 1024)

escape_all : List ℕ → Bytes
unfolding escape hex hex_digit
escape_all [] = []
escape_all (c ∷ cs) = escape c ++ escape_all cs

dump_str : String → Bytes
unfolding escape_all
dump_str s = 34 ∷ (escape_all (codes s) ++ 34 ∷ [])

-- The decimal digits of a number; the fuel bounds their count.
decimal : ℕ → ℕ → Bytes
decimal zero n = []
decimal (suc fuel) n =
    let shorter = decimal fuel (n / 10) in
    if ltb n 10 then (48 + n) ∷ [] else shorter ++ (48 + n % 10) ∷ []

dump_int : ℤ → Bytes
unfolding decimal
dump_int (pos n) = decimal (suc n) n
dump_int (negsuc n) = 45 ∷ decimal (suc (suc n)) (suc n)

abbrev join : List Bytes → Bytes
join [] = []
join (b ∷ []) = b
join (b ∷ c ∷ bs) = b ++ codes ", " ++ join (c ∷ bs)

abbrev is_after : String → String → Bool
is_after a b = elim (compare a b) [ Ordering.gt ↦ true | _ ↦ false ]

-- `sorted(dct.items())`: the keys of a dict are distinct.
insert_item : String × Bytes → List (String × Bytes) → List (String × Bytes)
insert_item x [] = x ∷ []
insert_item x (y ∷ ys) =
    let rest = insert_item x ys in if is_after x.0 y.0 then y ∷ rest else x ∷ y ∷ ys

sort_items : List (String × Bytes) → List (String × Bytes)
unfolding insert_item
sort_items [] = []
sort_items (x ∷ xs) = insert_item x (sort_items xs)

dump_item : String × Bytes → Bytes
unfolding dump_str
dump_item (k, v) = dump_str k ++ codes ": " ++ v

dump_object : List (String × Bytes) → Bytes
unfolding sort_items dump_item
dump_object items = codes "{" ++ join (map dump_item (sort_items items)) ++ codes "}"

-- `json.dumps(data, sort_keys=True).encode("utf-8")`
unfoldable mutual
  unfolding dump_str dump_int dump_object

  pub dumps : Json → Bytes
  dumps null = codes "null"
  dumps (bool true) = codes "true"
  dumps (bool false) = codes "false"
  dumps (num n) = dump_int n
  dumps (str s) = dump_str s
  dumps (arr xs) = codes "[" ++ join (dump_items xs) ++ codes "]"
  dumps (obj d) = dump_object (dump_fields d)

  pub dump_items : Items → List Bytes
  dump_items nil = []
  dump_items (cons x xs) = dumps x ∷ dump_items xs

  pub dump_fields : Fields → List (String × Bytes)
  dump_fields end = []
  dump_fields (field k v d) = (k, dumps v) ∷ dump_fields d

-- `canonical_json`
unfoldable pub canonical_json : Fields → Bytes
unfolding dumps
canonical_json data_fields = dumps (obj data_fields)

canonical_sorts :
    canonical_json (field "b" (bool true) (field "a" (num (pos 10)) end))
    ≡ codes "{\"a\": 10, \"b\": true}"
unfolding canonical_json
canonical_sorts = refl

fromhex-hex_run : fromhex (hex (0 ∷ 171 ∷ 255 ∷ [])) ≡ some (0 ∷ 171 ∷ 255 ∷ [])
unfolding fromhex hex pair_value digit_value hex_digit is_ascii_space
fromhex-hex_run = refl
