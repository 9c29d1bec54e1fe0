-- ===== src/Json/Inverse.antt =====
-- `parseJson` after `serialize`, with the fuel that it gives itself.
use mathlib.Core.List.{append-nil}
use mathlib.Core.Bool.{false≢true}
use hphl.Base.{
  ℕ, suc, ◌+◌, ◌*◌, ◌≤◌, ◌≡◌, refl, sym, ap, ◌∙◌, true, false, not, arith, and_left, and_right,
  Option, [], ◌∷◌, ◌++◌, length, length-append,
}
use hphl.Base.Int.{ℤ, pos, negsuc}
use hphl.Json.{
  Bytes, JsonValue, null, bool, int, double, string, array, object, JsonItems, no_items, item,
  JsonMembers, no_members, member, has_member,
}
use hphl.Json.Text.{
  quoted, decimal, to_string, serialize, serialize_items, serialize_members, json_escape,
}
use hphl.Json.Scan.{Parsed, ok, skip_ws, and_then}
use hphl.Json.Parser.{parse_value, parse_json, at_end}
use hphl.Json.Digits.{decimal_cons}
use hphl.Json.RoundTrip.{
  is_exact, are_exact, members_exact, cost, cost_items, cost_members, value_back, skip-serialize,
}

length-cons : (c : ℕ) (s t : Bytes) → t ≡ c ∷ s → 1 ≤ length t
length-cons c s t e = omega (arith, ap length e)

length-decimal : (n : ℕ) → 1 ≤ length (decimal n)
length-decimal n = let (c, s, e) = decimal_cons n in length-cons c s (decimal n) e

length-to_string : (a : ℤ) → 1 ≤ length (to_string a)
unfolding to_string
length-to_string (pos n) = length-decimal n
length-to_string (negsuc n) = omega arith

length-quoted : (bs : Bytes) → 2 ≤ length (quoted bs)
unfolding quoted
length-quoted bs = omega (arith, length-append (json_escape bs) (34 ∷ []))

module _ (print : ℕ → Bytes) where
  mutual
    unfolding serialize is_exact cost

    -- Three calls for each byte are enough.
    cost_le : (v : JsonValue) → is_exact v ≡ true → cost v + 2 ≤ 3 * length (serialize print v)
    cost_le null h = omega arith
    cost_le (bool true) h = omega arith
    cost_le (bool false) h = omega arith
    cost_le (int a) h = omega (arith, length-to_string a)
    cost_le (double f) h = absurd (false≢true h)
    cost_le (string s) h = omega (arith, length-quoted s)
    cost_le (array vs) h =
        omega (arith, items_le vs h, length-append (serialize_items print vs) (93 ∷ []))
    cost_le (object ms) h =
        omega (arith, members_le ms h, length-append (serialize_members print ms) (125 ∷ []))

    items_le :
        (vs : JsonItems)
        → are_exact vs ≡ true
        → cost_items vs ≤ 3 * length (serialize_items print vs) + 2
    items_le no_items h = omega arith
    items_le (item v no_items) h = omega (arith, cost_le v (and_left (is_exact v) true h))
    items_le (item v (item w vs)) h = omega (
      arith,
      cost_le v (and_left (is_exact v) _ h),
      items_le (item w vs) (and_right (is_exact v) _ h),
      length-append (serialize print v) (44 ∷ serialize_items print (item w vs)),
    )

    members_le :
        (ms : JsonMembers)
        → members_exact ms ≡ true
        → cost_members ms ≤ 3 * length (serialize_members print ms) + 2
    members_le no_members h = omega arith
    members_le (member k v no_members) h =
        let e = and_right (not (has_member k no_members)) (is_exact v) (and_left _ true h) in
        omega (arith, cost_le v e, length-append (quoted k) (58 ∷ serialize print v))
    members_le (member k v (member l w ms)) h =
        let hl = and_left _ (members_exact (member l w ms)) h in
        let e = and_right (not (has_member k (member l w ms))) _ hl in
        let tail = 44 ∷ serialize_members print (member l w ms) in
        omega (
          arith,
          cost_le v e,
          members_le (member l w ms) (and_right _ (members_exact (member l w ms)) h),
          length-append (quoted k) (58 ∷ (serialize print v ++ tail)),
          length-append (serialize print v) tail,
        )

  -- What `serialize` writes for a value without floating numbers, with integers of 64 bits and with
  -- no key twice in an object, `parseJson` reads back as that value, however `double`s are written
  -- and read; it needs no more than the fuel that it gives itself, three calls for each byte.
  pub parse_json-serialize :
      (stod : Bytes → Option ℕ) (v : JsonValue)
      → is_exact v ≡ true
      → parse_json stod (serialize print v) ≡ ok v []
  unfolding parse_json skip_ws
  parse_json-serialize stod v h =
      let n = suc (3 * length (serialize print v)) in
      let nil = append-nil (serialize print v) in
      let skipped = ap skip_ws (sym nil) ∙ skip-serialize print v [] h in
      ap (λ (x : Parsed JsonValue). and_then x (λ w rest. at_end stod w (skip_ws rest)))
        (ap (parse_value stod n) skipped
          ∙ value_back print stod v n [] h (omega (arith, cost_le v h)) refl)
