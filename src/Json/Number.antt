-- ===== src/Json/Number.antt =====
-- `parseNumber` of compiler/src/json/json.cpp, and `std::stoll` on what it reads.
use hphl.Base.{
  ℕ, ◌+◌, ◌-◌, ◌*◌, Bool, true, false, ◌&&◌, ◌||◌, Option, none, some, leb, ◌==◌, if◌then◌else◌, [],
  ◌∷◌, ◌++◌,
}
use hphl.Base.Int.{ℤ, pos, ◌-ℤ◌, is_int64}
use hphl.Json.{Bytes, JsonValue, int, double}
use hphl.Json.Scan.{Parsed, ok, failed, number_exception, empty_number}

abbrev pub is_digit : ℕ → Bool
is_digit c = leb 48 c && leb c 57

-- The digits at the front, and the rest.
unfoldable pub span_digits : Bytes → Bytes × Bytes
span_digits [] = ([], [])
span_digits (c ∷ s) =
    let (ds, rest) = span_digits s in if is_digit c then (c ∷ ds, rest) else ([], c ∷ s)

-- `if (peek() == …) next();`: the byte, if it is read, and the rest.
abbrev pub accept : (ℕ → Bool) → Bytes → Bytes × Bytes
accept p [] = ([], [])
accept p (c ∷ s) = if p c then (c ∷ [], s) else ([], c ∷ s)

abbrev pub is_read : Bytes → Bool
is_read [] = false
is_read (_ ∷ _) = true

-- The text of a number, whether it is a floating one, and the rest.
unfoldable pub scan_number : Bytes → Bytes × Bool × Bytes
scan_number s =
    let (sign, s1) = accept (λ c. c == 45) s in
    let (whole, s2) = span_digits s1 in
    let (dot, s3) = accept (λ c. c == 46) s2 in
    let (fraction, s4) = if is_read dot then span_digits s3 else ([], s3) in
    let (mark, s5) = accept (λ c. c == 101 || c == 69) s4 in
    let (mark_sign, s6) = if is_read mark then accept (λ c. c == 43 || c == 45) s5 else ([], s5) in
    let (exponent, s7) = if is_read mark then span_digits s6 else ([], s6) in
    (
      sign ++ whole ++ dot ++ fraction ++ mark ++ mark_sign ++ exponent,
      is_read dot || is_read mark,
      s7,
    )

unfoldable pub number_of : ℕ → Bytes → ℕ
number_of n [] = n
number_of n (c ∷ ds) = number_of (n * 10 + (c - 48)) ds

abbrev pub in_range : ℤ → Option ℤ
in_range a = if is_int64 a then some a else none

abbrev pub stoll_digits : Bool → Bytes → Option ℤ
stoll_digits minus [] = none
stoll_digits true (c ∷ ds) = in_range (pos 0 -ℤ pos (number_of 0 (c ∷ ds)))
stoll_digits false (c ∷ ds) = in_range (pos (number_of 0 (c ∷ ds)))

-- `std::stoll` on an optional minus and digits; `none` where it throws: no digit, or out of range.
unfoldable pub stoll : Bytes → Option ℤ
stoll [] = none
stoll (c ∷ s) = if c == 45 then stoll_digits true s else stoll_digits false (c ∷ s)

abbrev pub as_value : {A : Type 0} → (A → JsonValue) → Option A → Bytes → Parsed JsonValue
as_value f none s = number_exception
as_value f (some a) s = ok (f a) s

-- `std::stod`; `none` where it throws.
module _ (stod : Bytes → Option ℕ) where
  abbrev pub number_value : Bytes × Bool × Bytes → Parsed JsonValue
  number_value ([], _, s) = failed empty_number s
  number_value (c ∷ text, true, s) = as_value double (stod (c ∷ text)) s
  number_value (c ∷ text, false, s) = as_value int (stoll (c ∷ text)) s

  -- `parseNumber`
  unfoldable pub parse_number : Bytes → Parsed JsonValue
  parse_number s = number_value (scan_number s)
