-- ===== src/Json/Parser.antt =====
-- `JsonParser::parse`, its values, objects and arrays, and `parseJson` of compiler/src/json/json.cpp.
use hphl.Base.{ℕ, zero, suc, ◌*◌, true, false, ◌||◌, Option, ◌==◌, if◌then◌else◌, [], ◌∷◌, length}
use hphl.Json.{
  Bytes, JsonValue, null, bool, array, object, no_items, no_members, put, push, as_string,
}
use hphl.Json.Scan.{
  Parsed, ok, failed, out_of_fuel, and_then, content_after_end, unexpected_value, expected_key,
  expected_colon, expected_comma_or_brace, expected_comma_or_bracket, skip_ws, peek, next,
  expect_literal, parse_string,
}
use hphl.Json.Number.{is_digit, parse_number}

-- The `switch` of `parseValue` on the first byte.
pub data Start : Type 0 where
  brace bracket quotes true_word false_word null_word number no_value : Start

abbrev pub start_of : ℕ → Start
start_of c =
    if c == 123
    then brace
    else if c == 91
    then bracket
    else if c == 34
    then quotes
    else if c == 116
    then true_word
    else if c == 102
    then false_word
    else if c == 110
    then null_word
    else if c == 45 || is_digit c
    then number
    else no_value

module _ (stod : Bytes → Option ℕ) where
  unfoldable mutual
    unfolding skip_ws expect_literal parse_string parse_number put push

    -- `parseValue`
    pub parse_value : ℕ → Bytes → Parsed JsonValue
    parse_value zero s = out_of_fuel
    parse_value (suc n) s = elim (start_of (peek s)) [
      | brace ↦ and_then (next s) (λ c rest. parse_object n (skip_ws rest))
      | bracket ↦ and_then (next s) (λ c rest. parse_array n (skip_ws rest))
      | quotes ↦ parse_string s
      | true_word ↦
          and_then (expect_literal (116 ∷ 114 ∷ 117 ∷ 101 ∷ []) s) (λ u rest. ok (bool true) rest)
      | false_word ↦
          and_then (expect_literal (102 ∷ 97 ∷ 108 ∷ 115 ∷ 101 ∷ []) s)
            (λ u rest. ok (bool false) rest)
      | null_word ↦
          and_then (expect_literal (110 ∷ 117 ∷ 108 ∷ 108 ∷ []) s) (λ u rest. ok null rest)
      | number ↦ parse_number stod s
      | no_value ↦ failed unexpected_value s
    ]

    -- `parseObject` behind the brace and the blanks, and the loop over the members.
    pub parse_object : ℕ → Bytes → Parsed JsonValue
    parse_object zero s = out_of_fuel
    parse_object (suc n) s = elim (peek s == 125) [
      | true ↦ and_then (next s) (λ c rest. ok (object no_members) rest)
      | false ↦ parse_members n (object no_members) s
    ]

    pub parse_members : ℕ → JsonValue → Bytes → Parsed JsonValue
    parse_members zero obj s = out_of_fuel
    parse_members (suc n) obj s = elim (peek (skip_ws s) == 34) [
      | true ↦ and_then (parse_string (skip_ws s)) (λ key s1. and_then (next (skip_ws s1)) (λ c s2.
          elim (c == 58) [
            | true ↦ and_then (parse_value n (skip_ws s2)) (λ v s3.
                and_then (next (skip_ws s3)) (λ e s4. elim (e == 125) [
                  | true ↦ ok (put obj (as_string [] key) v) s4
                  | false ↦ elim (e == 44) [
                    | true ↦ parse_members n (put obj (as_string [] key) v) s4
                    | false ↦ failed expected_comma_or_brace s4
                  ]
                ]))
            | false ↦ failed expected_colon s2
          ]))
      | false ↦ failed expected_key (skip_ws s)
    ]

    -- `parseArray` behind the bracket and the blanks, and the loop over the elements.
    pub parse_array : ℕ → Bytes → Parsed JsonValue
    parse_array zero s = out_of_fuel
    parse_array (suc n) s = elim (peek s == 93) [
      | true ↦ and_then (next s) (λ c rest. ok (array no_items) rest)
      | false ↦ parse_items n (array no_items) s
    ]

    pub parse_items : ℕ → JsonValue → Bytes → Parsed JsonValue
    parse_items zero arr s = out_of_fuel
    parse_items (suc n) arr s = and_then (parse_value n (skip_ws s)) (λ v s1.
        and_then (next (skip_ws s1)) (λ e s2. elim (e == 93) [
          | true ↦ ok (push arr v) s2
          | false ↦ elim (e == 44) [
            | true ↦ parse_items n (push arr v) s2
            | false ↦ failed expected_comma_or_bracket s2
          ]
        ]))

  abbrev pub at_end : JsonValue → Bytes → Parsed JsonValue
  at_end v [] = ok v []
  at_end v (c ∷ s) = failed content_after_end (c ∷ s)

  -- `parse` and `parseJson`; a byte asks for at most three calls.
  unfoldable pub parse_json : Bytes → Parsed JsonValue
  unfolding parse_value skip_ws
  parse_json text =
      and_then (parse_value (suc (3 * length text)) (skip_ws text))
        (λ v rest. at_end v (skip_ws rest))
