-- ===== src/Json/RoundTrip.antt =====
-- `parseValue` on the text that `serialize` writes.
use mathlib.Core.List.{append_assoc}
use mathlib.Core.Bool.{false≢true}
use hphl.Base.{
  ℕ, zero, suc, ◌+◌, ◌≤◌, ◌≡◌, refl, sym, ap, ◌∙◌, Bool, true, false, not, ◌&&◌, arith, ◌==◌,
  and_left, and_right, Option, [], ◌∷◌, ◌++◌,
}
use hphl.Base.Int.{ℤ, pos, negsuc, is_int64}
use hphl.Json.{
  Bytes, JsonValue, null, bool, int, double, string, array, object, JsonItems, no_items, item,
  JsonMembers, no_members, member, add_item, push, put, put_member, has_member,
}
use hphl.Json.Text.{quoted, decimal, to_string, serialize, serialize_items, serialize_members}
use hphl.Json.Scan.{ok, skip_ws, peek}
use hphl.Json.Number.{is_digit}
use hphl.Json.Parser.{start_of, parse_value, parse_items, parse_members}
use hphl.Json.Digits.{
  decimal_cons, all_digits-digits_of, all_digits, ends_number, parse_number-to_string,
}
use hphl.Json.Steps.{
  starts_value, skip_ws_self, start_of-digit, items_last, items_more, members_last, members_more,
  parse_value-number, read_null, read_true, read_false, read_string, empty_array, open_array,
  empty_object, open_object,
}
use hphl.Json.Fresh.{
  fresh, join_members, fresh-put, fresh_none, join_members-put, put_member-join, false_of_not,
}

-- The values that are written without loss: no floating number, 64-bit integers, and no key twice.
unfoldable mutual
  pub is_exact : JsonValue → Bool
  is_exact (int a) = is_int64 a
  is_exact (double f) = false
  is_exact (array vs) = are_exact vs
  is_exact (object ms) = members_exact ms
  is_exact _ = true

  pub are_exact : JsonItems → Bool
  are_exact no_items = true
  are_exact (item v vs) = is_exact v && are_exact vs

  pub members_exact : JsonMembers → Bool
  members_exact no_members = true
  members_exact (member k v ms) = not (has_member k ms) && is_exact v && members_exact ms

-- The fuel that reading a value back takes.
unfoldable mutual
  pub cost : JsonValue → ℕ
  cost (array vs) = 2 + cost_items vs
  cost (object ms) = 2 + cost_members ms
  cost _ = 1

  pub cost_items : JsonItems → ℕ
  cost_items no_items = 0
  cost_items (item v vs) = 1 + (cost v + cost_items vs)

  pub cost_members : JsonMembers → ℕ
  cost_members no_members = 0
  cost_members (member k v ms) = 1 + (cost v + cost_members ms)

cost-pos : (v : JsonValue) → 1 ≤ cost v
unfolding cost
cost-pos (array vs) = omega arith
cost-pos (object ms) = omega arith
cost-pos _ = omega arith

abbrev join_items : JsonItems → JsonItems → JsonItems
join_items no_items vs = vs
join_items (item v us) vs = item v (join_items us vs)

join_items-add :
    (us : JsonItems) (v : JsonValue) (vs : JsonItems)
    → join_items (add_item us v) vs ≡ join_items us (item v vs)
unfolding add_item
join_items-add no_items v vs = refl
join_items-add (item u us) v vs = ap (item u) (join_items-add us v vs)

add_item-join : (us : JsonItems) (v : JsonValue) → add_item us v ≡ join_items us (item v no_items)
unfolding add_item
add_item-join no_items v = refl
add_item-join (item u us) v = ap (item u) (add_item-join us v)

first-digit : (n : ℕ) → (c : ℕ) × (ds : Bytes) × (decimal n ≡ c ∷ ds) × (is_digit c ≡ true)
unfolding all_digits
first-digit n =
    let (c, ds, e) = decimal_cons n in
    (c, ds, e, and_left (is_digit c) _ (sym (ap all_digits e) ∙ all_digits-digits_of (suc n) n))

digit-starts : (c : ℕ) → is_digit c ≡ true → starts_value c ≡ true
digit-starts c h = ground arith

module _ (print : ℕ → Bytes) where
  -- A value's text begins with a byte that starts a value.
  serialize_cons :
      (v : JsonValue)
      → is_exact v ≡ true
      → (c : ℕ) × (s : Bytes) × (serialize print v ≡ c ∷ s) × (starts_value c ≡ true)
  unfolding serialize quoted to_string is_exact
  serialize_cons null h = (_, _, refl, refl)
  serialize_cons (bool true) h = (_, _, refl, refl)
  serialize_cons (bool false) h = (_, _, refl, refl)
  serialize_cons (int (pos n)) h = let (c, ds, e, d) = first-digit n in (c, ds, e, digit-starts c d)
  serialize_cons (int (negsuc n)) h = (_, _, refl, refl)
  serialize_cons (double f) h = absurd (false≢true h)
  serialize_cons (string s) h = (_, _, refl, refl)
  serialize_cons (array vs) h = (_, _, refl, refl)
  serialize_cons (object ms) h = (_, _, refl, refl)

  no_bracket : (c : ℕ) → starts_value c ≡ true → (c == 93) ≡ false
  no_bracket c k = ground arith

  pub skip-serialize :
      (v : JsonValue) (rest : Bytes)
      → is_exact v ≡ true
      → skip_ws (serialize print v ++ rest) ≡ serialize print v ++ rest
  skip-serialize v rest h =
      let (c, s, e, k) = serialize_cons v h in
      ap (λ (x : Bytes). skip_ws (x ++ rest)) e
      ∙ skip_ws_self c (s ++ rest) k
      ∙ ap (λ (x : Bytes). x ++ rest) (sym e)

  module _ (stod : Bytes → Option ℕ) where
    parse_value-int :
        (a : ℤ) (n : ℕ) (rest : Bytes)
        → is_int64 a ≡ true
        → ends_number rest ≡ true
        → parse_value stod (suc n) (to_string a ++ rest) ≡ ok (int a) rest
    unfolding to_string
    parse_value-int (pos a) n rest h k =
        let (c, ds, e, d) = first-digit a in
        parse_value-number stod n (decimal a ++ rest)
          (ap (λ (x : Bytes). start_of (peek (x ++ rest))) e ∙ start_of-digit c d)
        ∙ parse_number-to_string stod rest k (pos a) h
    parse_value-int (negsuc a) n rest h k =
        parse_value-number stod n (to_string (negsuc a) ++ rest) refl
        ∙ parse_number-to_string stod rest k (negsuc a) h

    peek-serialize :
        (v : JsonValue) (rest : Bytes)
        → is_exact v ≡ true
        → (peek (skip_ws (serialize print v ++ rest)) == 93) ≡ false
    peek-serialize v rest h =
        let (c, s, e, k) = serialize_cons v h in
        ap (λ (x : Bytes). peek x == 93) (skip-serialize v rest h ∙ ap (λ (x : Bytes). x ++ rest) e)
        ∙ no_bracket c k

    items_first :
        (v : JsonValue) (vs : JsonItems) (rest : Bytes)
        → (t : Bytes) × (serialize_items print (item v vs) ++ rest ≡ serialize print v ++ t)
    unfolding serialize_items
    items_first v no_items rest = (rest, refl)
    items_first v (item w vs) rest =
        let s = 44 ∷ serialize_items print (item w vs) in
        (s ++ rest, append_assoc (serialize print v) s rest)

    -- The elements of an array begin with no blank and no bracket that closes it.
    items_open :
        (v : JsonValue) (vs : JsonItems) (rest : Bytes)
        → is_exact v ≡ true
        → let s = serialize_items print (item v vs) ++ rest in
          (skip_ws s ≡ s) × ((peek (skip_ws s) == 93) ≡ false)
    items_open v vs rest h =
        let (t, e) = items_first v vs rest in
        (
          ap skip_ws e ∙ skip-serialize v t h ∙ sym e,
          ap (λ (x : Bytes). peek (skip_ws x) == 93) e ∙ peek-serialize v t h,
        )

    members_first :
        (k : Bytes) (v : JsonValue) (ms : JsonMembers) (rest : Bytes)
        → (t : Bytes) × (serialize_members print (member k v ms) ++ rest ≡ quoted k ++ t)
    unfolding serialize_members
    members_first k v no_members rest = (_, append_assoc (quoted k) (58 ∷ serialize print v) rest)
    members_first k v (member l w ms) rest = (
      _,
      append_assoc (quoted k)
          (58 ∷ (serialize print v ++ (44 ∷ serialize_members print (member l w ms)))) rest,
    )

    mutual
      unfolding serialize is_exact cost push put fresh has_member

      pub value_back :
          (v : JsonValue) (n : ℕ) (rest : Bytes)
          → is_exact v ≡ true
          → cost v ≤ n
          → ends_number rest ≡ true
          → parse_value stod n (serialize print v ++ rest) ≡ ok v rest
      value_back v zero rest h c k = absurd (omega (arith, cost-pos v, c))
      value_back null (suc n) rest h c k = read_null stod n rest
      value_back (bool true) (suc n) rest h c k = read_true stod n rest
      value_back (bool false) (suc n) rest h c k = read_false stod n rest
      value_back (int a) (suc n) rest h c k = parse_value-int a n rest h k
      value_back (double f) (suc n) rest h c k = absurd (false≢true h)
      value_back (string s) (suc n) rest h c k = read_string stod n s rest
      value_back (array vs) (suc zero) rest h c k = absurd (omega (arith, c))
      value_back (object ms) (suc zero) rest h c k = absurd (omega (arith, c))
      value_back (array no_items) (suc (suc n)) rest h c k = empty_array stod n rest
      value_back (array (item v vs)) (suc (suc n)) rest h c k =
          let (same, q) = items_open v vs (93 ∷ rest) (and_left (is_exact v) _ h) in
          ap (λ (x : Bytes). parse_value stod (suc (suc n)) (91 ∷ x))
            (append_assoc (serialize_items print (item v vs)) (93 ∷ []) rest)
          ∙ open_array stod n (serialize_items print (item v vs) ++ 93 ∷ rest) q
          ∙ ap (parse_items stod n (array no_items)) same
          ∙ items_back v vs no_items n rest h (omega (arith, c))
      value_back (object no_members) (suc (suc n)) rest h c k = empty_object stod n rest
      value_back (object (member l v ms)) (suc (suc n)) rest h c k =
          let (t, e) = members_first l v ms (125 ∷ rest) in
          ap (λ (x : Bytes). parse_value stod (suc (suc n)) (123 ∷ x))
            (append_assoc (serialize_members print (member l v ms)) (125 ∷ []) rest ∙ e)
          ∙ open_object stod n l t
          ∙ ap (parse_members stod n (object no_members)) (sym e)
          ∙ members_back l v ms no_members n rest h (fresh_none (member l v ms)) (omega (arith, c))

      items_back :
          (v : JsonValue) (vs us : JsonItems) (n : ℕ) (rest : Bytes)
          → are_exact (item v vs) ≡ true
          → cost_items (item v vs) ≤ n
          → parse_items stod n (array us) (serialize_items print (item v vs) ++ 93 ∷ rest)
            ≡ ok (array (join_items us (item v vs))) rest
      items_back v vs us zero rest h c = absurd (omega (arith, c))
      items_back v no_items us (suc n) rest h c =
          let e = and_left (is_exact v) _ h in
          items_last stod n (array us) v (serialize print v ++ 93 ∷ rest) rest (
            ap (parse_value stod n) (skip-serialize v (93 ∷ rest) e)
            ∙ value_back v n (93 ∷ rest) e (omega (arith, c)) refl)
          ∙ ap (λ (x : JsonItems). ok (array x) rest) (add_item-join us v)
      items_back v (item w vs) us (suc n) rest h c =
          let e = and_left (is_exact v) _ h in
          let t = serialize_items print (item w vs) ++ 93 ∷ rest in
          ap (parse_items stod (suc n) (array us))
            (append_assoc (serialize print v) (44 ∷ serialize_items print (item w vs)) (93 ∷ rest))
          ∙ items_more stod n (array us) v (serialize print v ++ 44 ∷ t) t (
              ap (parse_value stod n) (skip-serialize v (44 ∷ t) e)
              ∙ value_back v n (44 ∷ t) e (omega (arith, c)) refl)
          ∙ items_back w vs (add_item us v) n rest (and_right (is_exact v) _ h) (omega (arith, c))
          ∙ ap (λ (x : JsonItems). ok (array x) rest) (join_items-add us v (item w vs))

      members_back :
          (k : Bytes) (v : JsonValue) (ms ls : JsonMembers) (n : ℕ) (rest : Bytes)
          → members_exact (member k v ms) ≡ true
          → fresh ls (member k v ms) ≡ true
          → cost_members (member k v ms) ≤ n
          → parse_members stod n (object ls) (serialize_members print (member k v ms) ++ 125 ∷ rest)
            ≡ ok (object (join_members ls (member k v ms))) rest
      members_back k v ms ls zero rest h f c = absurd (omega (arith, c))
      members_back k v no_members ls (suc n) rest h f c =
          let e =
            and_right (not (has_member k no_members)) (is_exact v)
              (and_left _ (members_exact no_members) h) in
          let u = false_of_not (has_member k ls) (and_left _ (fresh ls no_members) f) in
          let t = serialize print v ++ 125 ∷ rest in
          ap (parse_members stod (suc n) (object ls))
            (append_assoc (quoted k) (58 ∷ serialize print v) (125 ∷ rest))
          ∙ members_last stod n (object ls) k v t rest (
              ap (parse_value stod n) (skip-serialize v (125 ∷ rest) e)
              ∙ value_back v n (125 ∷ rest) e (omega (arith, c)) refl)
          ∙ ap (λ (x : JsonMembers). ok (object x) rest) (put_member-join ls k v u)
      members_back k v (member l w ms) ls (suc n) rest h f c =
          let hl = and_left _ (members_exact (member l w ms)) h in
          let e = and_right (not (has_member k (member l w ms))) _ hl in
          let absent = false_of_not (has_member k (member l w ms)) (and_left _ (is_exact v) hl) in
          let u = false_of_not (has_member k ls) (and_left _ (fresh ls (member l w ms)) f) in
          let tail = 44 ∷ serialize_members print (member l w ms) in
          let t = serialize_members print (member l w ms) ++ 125 ∷ rest in
          ap (parse_members stod (suc n) (object ls)) (
            append_assoc (quoted k) (58 ∷ (serialize print v ++ tail)) (125 ∷ rest)
            ∙ ap (λ (x : Bytes). quoted k ++ 58 ∷ x)
                (append_assoc (serialize print v) tail (125 ∷ rest)))
          ∙ members_more stod n (object ls) k v (serialize print v ++ 44 ∷ t) t (
              ap (parse_value stod n) (skip-serialize v (44 ∷ t) e)
              ∙ value_back v n (44 ∷ t) e (omega (arith, c)) refl)
          ∙ members_back l w ms (put_member k v ls) n rest
              (and_right _ (members_exact (member l w ms)) h)
              (fresh-put ls (member l w ms) k v (and_right _ (fresh ls (member l w ms)) f) absent)
              (omega (arith, c))
          ∙ ap (λ (x : JsonMembers). ok (object x) rest) (join_members-put ls (member l w ms) k v u)
