-- ===== src/Json/Scan.antt =====
-- `utf8Encode` and the parts of `JsonParser` that read characters, of compiler/src/json/json.cpp. The parser's position is
-- given by the bytes that are left; an exception is a result.
use hphl.Base.{
  ℕ, zero, suc, ◌+◌, ◌-◌, ◌*◌, ◌/◌, ◌%◌, ◌^◌, Bool, ◌&&◌, ◌||◌, Option, none, some, ltb, leb, ◌==◌,
  if◌then◌else◌, [], ◌∷◌, ◌++◌, length,
}
use hphl.Json.{Bytes, JsonValue, string}

-- The messages of `fail`.
pub data Problem : Type 0 where
  content_after_end unexpected_end bad_literal unexpected_value expected_key expected_colon
        expected_comma_or_brace expected_comma_or_bracket incomplete_escape incomplete_unicode
        bad_hex incomplete_pair bad_low_hex lone_low_surrogate bad_escape unterminated_string
        empty_number :
      Problem

-- A result with the bytes that are left; a syntax error with the bytes that are left; an exception
-- of `std::stoll` or `std::stod`.
pub data Parsed (A : Type 0) : Type 0 where
  ok : A → Bytes → Parsed A
  failed : Problem → Bytes → Parsed A
  number_exception : Parsed A
  out_of_fuel : Parsed A

abbrev pub and_then : {A B : Type 0} → Parsed A → (A → Bytes → Parsed B) → Parsed B
and_then (ok a s) k = k a s
and_then (failed p s) k = failed p s
and_then number_exception k = number_exception
and_then out_of_fuel k = out_of_fuel

-- `utf8Encode`: the bytes that it adds. The parts of the code point do not overlap the marks that
-- are joined to them, so `|` is `+`.
unfoldable pub utf8_encode : ℕ → Bytes
utf8_encode cp =
    if ltb cp 128
    then cp ∷ []
    else if ltb cp (2 ^ 11)
    then (192 + cp / 2 ^ 6) ∷ (128 + cp % 2 ^ 6) ∷ []
    else if ltb cp (2 ^ 16)
    then (224 + cp / 2 ^ 12) ∷ (128 + cp / 2 ^ 6 % 2 ^ 6) ∷ (128 + cp % 2 ^ 6) ∷ []
    else (240 + cp / 2 ^ 18)
      ∷ (128 + cp / 2 ^ 12 % 2 ^ 6)
      ∷ (128 + cp / 2 ^ 6 % 2 ^ 6)
      ∷ (128 + cp % 2 ^ 6)
      ∷ []

abbrev pub is_space : ℕ → Bool
is_space c = c == 32 || c == 9 || c == 10 || c == 13

-- `skipWs`
unfoldable pub skip_ws : Bytes → Bytes
skip_ws [] = []
skip_ws (c ∷ s) = let rest = skip_ws s in if is_space c then rest else c ∷ s

-- `peek`: a zero byte at the end.
abbrev pub peek : Bytes → ℕ
peek [] = 0
peek (c ∷ s) = c

-- `next`
abbrev pub next : Bytes → Parsed ℕ
next [] = failed unexpected_end []
next (c ∷ s) = ok c s

-- `expectLiteral`
unfoldable pub expect_literal : Bytes → Bytes → Parsed Unit
expect_literal [] s = ok tt s
expect_literal (l ∷ ls) [] = failed unexpected_end []
expect_literal (l ∷ ls) (c ∷ s) =
    let rest = expect_literal ls s in if c == l then rest else failed bad_literal s

-- The value of a hexadecimal digit.
abbrev pub hex_value : ℕ → Option ℕ
hex_value h =
    if leb 48 h && leb h 57
    then some (h - 48)
    else if leb 97 h && leb h 102
    then some (h - 97 + 10)
    else if leb 65 h && leb h 70
    then some (h - 65 + 10)
    else none

abbrev pub add_hex : Problem → Bytes → ℕ → Option ℕ → Parsed ℕ
add_hex p s n none = failed p s
add_hex p s n (some k) = ok (n * 16 + k) s

-- One round of the loop over the hexadecimal digits, and four. The loop over the second four bytes
-- reads past no end either: there are six bytes left before it.
abbrev pub hex_digit : Problem → ℕ → Bytes → Parsed ℕ
hex_digit p n [] = failed p []
hex_digit p n (h ∷ s) = add_hex p s n (hex_value h)

unfoldable pub hex_word : Problem → Bytes → Parsed ℕ
hex_word p s = and_then (hex_digit p 0 s) (λ n1 s1.
    and_then (hex_digit p n1 s1)
      (λ n2 s2. and_then (hex_digit p n2 s2) (λ n3 s3. hex_digit p n3 s3)))

-- The low half of a surrogate pair. Its range is not checked: the subtraction is unsigned, modulo
-- 2 ^ 32.
abbrev pub low_half : ℕ → Bytes → Parsed Bytes
low_half cp s = and_then (hex_word bad_low_hex s) (λ lo rest.
    ok (utf8_encode ((65536 + (cp - 55296) * 2 ^ 10 + (2 ^ 32 + lo - 56320)) % 2 ^ 32)) rest)

unfoldable pub surrogate_pair : ℕ → Bytes → Parsed Bytes
surrogate_pair cp (a ∷ b ∷ s) =
    if a == 92 && b == 117 && leb 4 (length s)
    then low_half cp s
    else failed incomplete_pair (a ∷ b ∷ s)
surrogate_pair cp s = failed incomplete_pair s

abbrev pub is_high : ℕ → Bool
is_high cp = leb 55296 cp && leb cp 56319

abbrev pub is_low : ℕ → Bool
is_low cp = leb 56320 cp && leb cp 57343

-- Behind `\u`.
unfoldable pub unicode_escape : Bytes → Parsed Bytes
unicode_escape s =
    if ltb (length s) 4
    then failed incomplete_unicode s
    else and_then (hex_word bad_hex s) (λ cp rest.
      if is_high cp
      then surrogate_pair cp rest
      else if is_low cp
      then failed lone_low_surrogate rest
      else ok (utf8_encode cp) rest)

-- Behind a backslash: the bytes that are added.
unfoldable pub read_escape : Bytes → Parsed Bytes
read_escape [] = failed incomplete_escape []
read_escape (e ∷ s) =
    if e == 34
    then ok (34 ∷ []) s
    else if e == 92
    then ok (92 ∷ []) s
    else if e == 47
    then ok (47 ∷ []) s
    else if e == 98
    then ok (8 ∷ []) s
    else if e == 102
    then ok (12 ∷ []) s
    else if e == 110
    then ok (10 ∷ []) s
    else if e == 114
    then ok (13 ∷ []) s
    else if e == 116
    then ok (9 ∷ []) s
    else if e == 117
    then unicode_escape s
    else failed bad_escape s

pub data CharKind : Type 0 where
  quote backslash other : CharKind

abbrev pub char_kind : ℕ → CharKind
char_kind c = if c == 34 then quote else if c == 92 then backslash else other

-- The loop of `parseString`, on fuel: the number of bytes left and one are enough.
unfoldable pub parse_chars : ℕ → Bytes → Bytes → Parsed JsonValue
parse_chars zero out s = out_of_fuel
parse_chars (suc n) out [] = failed unterminated_string []
parse_chars (suc n) out (c ∷ s) = elim (char_kind c) [
  | quote ↦ ok (string out) s
  | backslash ↦ and_then (read_escape s) (λ bs rest. parse_chars n (out ++ bs) rest)
  | other ↦ parse_chars n (out ++ c ∷ []) s
]

-- `parseString`
unfoldable pub parse_string : Bytes → Parsed JsonValue
parse_string s = and_then (next s) (λ c rest. parse_chars (suc (length rest)) [] rest)
