-- ===== src/Json/Text.antt =====
-- `jsonEscape` and `JsonValue::serialize` of compiler/src/json/json.cpp, into bytes.
use hphl.Base.{ℕ, zero, suc, ◌+◌, ◌/◌, ◌%◌, true, false, ltb, ◌==◌, if◌then◌else◌, [], ◌∷◌, ◌++◌}
use hphl.Base.Int.{ℤ, pos, negsuc}
use hphl.Json.{
  Bytes, JsonValue, null, bool, int, double, string, array, object, JsonItems, no_items, item,
  JsonMembers, no_members, member,
}

-- A digit of `%04x`.
abbrev pub hex_char : ℕ → ℕ
hex_char k = if ltb k 10 then 48 + k else 87 + k

-- What `jsonEscape` adds for one byte.
unfoldable pub escape_byte : ℕ → Bytes
escape_byte c =
    if c == 34
    then 92 ∷ 34 ∷ []
    else if c == 92
    then 92 ∷ 92 ∷ []
    else if c == 10
    then 92 ∷ 110 ∷ []
    else if c == 13
    then 92 ∷ 114 ∷ []
    else if c == 9
    then 92 ∷ 116 ∷ []
    else if c == 8
    then 92 ∷ 98 ∷ []
    else if c == 12
    then 92 ∷ 102 ∷ []
    else if ltb c 32
    then 92 ∷ 117 ∷ 48 ∷ 48 ∷ hex_char (c / 16) ∷ hex_char (c % 16) ∷ []
    else c ∷ []

-- `jsonEscape`
unfoldable pub json_escape : Bytes → Bytes
unfolding escape_byte
json_escape [] = []
json_escape (c ∷ s) = escape_byte c ++ json_escape s

-- The decimal digits of a number, on fuel: its value and one are enough.
unfoldable pub digits_of : ℕ → ℕ → Bytes
digits_of zero n = []
digits_of (suc k) n =
    let rest = digits_of k (n / 10) in
    if ltb n 10 then (48 + n) ∷ [] else rest ++ (48 + n % 10) ∷ []

abbrev pub decimal : ℕ → Bytes
decimal n = digits_of (suc n) n

-- `std::to_string` of a `long long`.
unfoldable pub to_string : ℤ → Bytes
to_string (pos n) = decimal n
to_string (negsuc n) = 45 ∷ decimal (suc n)

-- A quoted string, and the elements of an array or an object behind the first one.
unfoldable pub quoted : Bytes → Bytes
unfolding json_escape
quoted s = 34 ∷ json_escape s ++ 34 ∷ []

-- `print` is what `std::ostringstream` writes for a `double`.
module _ (print : ℕ → Bytes) where
  unfoldable mutual
    unfolding quoted to_string

    -- `serialize`
    pub serialize : JsonValue → Bytes
    serialize null = 110 ∷ 117 ∷ 108 ∷ 108 ∷ []
    serialize (bool true) = 116 ∷ 114 ∷ 117 ∷ 101 ∷ []
    serialize (bool false) = 102 ∷ 97 ∷ 108 ∷ 115 ∷ 101 ∷ []
    serialize (int a) = to_string a
    serialize (double f) = print f
    serialize (string s) = quoted s
    serialize (array vs) = 91 ∷ serialize_items vs ++ 93 ∷ []
    serialize (object ms) = 123 ∷ serialize_members ms ++ 125 ∷ []

    -- The elements, parted by commas.
    pub serialize_items : JsonItems → Bytes
    serialize_items no_items = []
    serialize_items (item v no_items) = serialize v
    serialize_items (item v (item w vs)) = serialize v ++ 44 ∷ serialize_items (item w vs)

    pub serialize_members : JsonMembers → Bytes
    serialize_members no_members = []
    serialize_members (member k v no_members) = quoted k ++ 58 ∷ serialize v
    serialize_members (member k v (member l w ms)) =
        quoted k ++ (58 ∷ (serialize v ++ (44 ∷ serialize_members (member l w ms))))
