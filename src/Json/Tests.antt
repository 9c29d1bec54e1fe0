-- ===== src/Json/Tests.antt =====
-- Runs of the JSON code, and concrete uses of the theorems.
use hphl.Base.{ℕ, ◌≡◌, ◌≢◌, refl, true, Option, none, [], ◌∷◌, ◌++◌}
use hphl.Base.Int.{negsuc}
use hphl.Json.{
  Bytes, JsonValue, null, bool, int, string, array, object, no_items, item, no_members, member,
  same_bytes, has_member, get, put,
}
use hphl.Json.Text.{serialize, quoted, to_string}
use hphl.Json.Scan.{
  ok, failed, out_of_fuel, number_exception, parse_string, expected_comma_or_bracket, parse_chars,
  read_escape, unicode_escape, hex_word, surrogate_pair, utf8_encode,
}
use hphl.Json.Number.{parse_number, scan_number, span_digits, stoll, number_of}
use hphl.Json.Parser.{parse_json}
use hphl.Json.Ends.{parse_json-ends}
use hphl.Json.Members.{get-put, get-put_other}
use hphl.Json.Escapes.{parse_string-quoted}
use hphl.Json.Digits.{parse_number-to_string}
use hphl.Json.RoundTrip.{is_exact}
use hphl.Json.Inverse.{parse_json-serialize}

abbrev no_print : ℕ → Bytes
no_print f = []

abbrev no_stod : Bytes → Option ℕ
no_stod s = none

abbrev key_a : Bytes
key_a = 97 ∷ []

abbrev key_b : Bytes
key_b = 98 ∷ []

-- `{"a":[-7,"\n"],"b":null}`
abbrev sample : JsonValue
sample = object (
    member key_a (array (item (int (negsuc 6)) (item (string (10 ∷ [])) no_items)))
      (member key_b null no_members))

-- `[1 x`
parse_json-bad : parse_json no_stod (91 ∷ 49 ∷ 32 ∷ 120 ∷ []) ≡ failed expected_comma_or_bracket []
unfolding parse_json scan_number span_digits stoll number_of
parse_json-bad = refl

-- A lone minus is a number without digits.
parse_json-minus : parse_json no_stod (45 ∷ []) ≡ number_exception
unfolding parse_json scan_number span_digits stoll
parse_json-minus = refl

-- `"\ud83d\ude00"` is four bytes of UTF-8.
parse_string-pair :
    parse_string (34 ∷ 92 ∷ 117 ∷ 100 ∷ 56 ∷ 51 ∷ 100 ∷ 92 ∷ 117 ∷ 100 ∷ 101 ∷ 48 ∷ 48 ∷ 34 ∷ [])
    ≡ ok (string (240 ∷ 159 ∷ 152 ∷ 128 ∷ [])) []
unfolding parse_string parse_chars read_escape unicode_escape hex_word surrogate_pair utf8_encode
parse_string-pair = refl

parse_json-serialize_example : parse_json no_stod (serialize no_print sample) ≡ ok sample []
unfolding is_exact has_member same_bytes
parse_json-serialize_example = parse_json-serialize no_print no_stod sample refl

parse_string-quoted_example :
    parse_string (quoted (34 ∷ 1 ∷ []) ++ 44 ∷ []) ≡ ok (string (34 ∷ 1 ∷ [])) (44 ∷ [])
parse_string-quoted_example = parse_string-quoted (34 ∷ 1 ∷ []) (44 ∷ [])

parse_number-to_string_example :
    parse_number no_stod (to_string (negsuc 41) ++ 93 ∷ []) ≡ ok (int (negsuc 41)) (93 ∷ [])
parse_number-to_string_example = parse_number-to_string no_stod (93 ∷ []) refl (negsuc 41) refl

get-put_example : get (put sample key_b (bool true)) key_b ≡ bool true
get-put_example = get-put sample key_b (bool true)

get-put_other_example : get (put sample key_b (bool true)) key_a ≡ get sample key_a
unfolding same_bytes
get-put_other_example = get-put_other sample key_b key_a (bool true) refl

-- `[[`
parse_json-ends_example : parse_json no_stod (91 ∷ 91 ∷ []) ≢ out_of_fuel
parse_json-ends_example = parse_json-ends no_stod (91 ∷ 91 ∷ [])
