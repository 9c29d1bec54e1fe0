-- ===== src/Json/Digits.antt =====
-- `parseNumber` on the digits that `std::to_string` writes.
use mathlib.Core.List.{append-nil}
use hphl.Base.{
  ℕ, zero, suc, ◌+◌, ◌-◌, ◌*◌, ◌/◌, ◌%◌, ◌<◌, ◌≡◌, refl, sym, ap, ◌∙◌, Bool, true, false, not, ◌&&◌,
  ◌||◌, arith, ltb, ◌==◌, if◌then◌else◌, Option, Bool-cases, inl, inr, and_left, and_right,
  and_intro, [], ◌∷◌, ◌++◌,
}
use hphl.Base.Int.{ℤ, pos, negsuc, is_int64, ◌-ℤ◌}
use hphl.Json.{Bytes, int}
use hphl.Json.Text.{digits_of, decimal, to_string}
use hphl.Json.Scan.{ok}
use hphl.Json.Number.{
  is_digit, span_digits, accept, scan_number, number_of, stoll, in_range, stoll_digits, as_value,
  parse_number,
}

unfoldable pub all_digits : Bytes → Bool
all_digits [] = true
all_digits (c ∷ s) = is_digit c && all_digits s

all_digits-append :
    (s t : Bytes) → all_digits s ≡ true → all_digits t ≡ true → all_digits (s ++ t) ≡ true
unfolding all_digits
all_digits-append [] t h k = k
all_digits-append (c ∷ s) t h k =
    and_intro (is_digit c) _ (and_left (is_digit c) _ h)
      (all_digits-append s t (and_right (is_digit c) _ h) k)

one_digit : (n : ℕ) → n < 10 → all_digits ((48 + n) ∷ []) ≡ true
unfolding all_digits
one_digit n h = ground arith

pub all_digits-digits_of : (k n : ℕ) → all_digits (digits_of k n) ≡ true
unfolding digits_of
all_digits-digits_of zero n = unfold all_digits in refl
all_digits-digits_of (suc k) n =
    let front = all_digits-digits_of k (n / 10) in
    elim (Bool-cases (ltb n 10)) [
      | inl h ↦ rw h (one_digit n (ground arith))
      | inr h ↦
          rw h (all_digits-append (digits_of k (n / 10)) _ front (one_digit (n % 10) (omega arith)))
    ]

number_of-append :
    (m : ℕ) (s : Bytes) (c : ℕ) → number_of m (s ++ c ∷ []) ≡ number_of m s * 10 + (c - 48)
unfolding number_of
number_of-append m [] c = refl
number_of-append m (d ∷ s) c = number_of-append (m * 10 + (d - 48)) s c

pub number_of-digits_of : (k n : ℕ) → n < k → number_of 0 (digits_of k n) ≡ n
unfolding digits_of
number_of-digits_of zero n h = absurd (omega arith)
number_of-digits_of (suc k) n h = elim (Bool-cases (ltb n 10)) [
  | inl l ↦ rw l (unfold number_of in omega arith)
  | inr l ↦
      let small : n / 10 < k = ground arith in
      rw l (
        number_of-append 0 (digits_of k (n / 10)) (48 + n % 10)
        ∙ (rw (number_of-digits_of k (n / 10) small) (omega arith)))
]

-- The bytes behind a number that do not go on with it.
abbrev pub ends_number : Bytes → Bool
ends_number [] = true
ends_number (c ∷ s) = not (is_digit c || c == 46 || c == 101 || c == 69)

span_stop : (rest : Bytes) → ends_number rest ≡ true → span_digits rest ≡ ([], rest)
unfolding span_digits
span_stop [] h = refl
span_stop (c ∷ s) h = let e : is_digit c ≡ false = ground arith in rw e refl

pub span_digits_lem :
    (ds rest : Bytes)
    → all_digits ds ≡ true
    → ends_number rest ≡ true
    → span_digits (ds ++ rest) ≡ (ds, rest)
unfolding all_digits span_digits
span_digits_lem [] rest h k = span_stop rest k
span_digits_lem (c ∷ ds) rest h k =
    rw (span_digits_lem ds rest (and_right (is_digit c) _ h) k, and_left (is_digit c) _ h) refl

accept_dot : (rest : Bytes) → ends_number rest ≡ true → accept (λ c. c == 46) rest ≡ ([], rest)
accept_dot [] h = refl
accept_dot (c ∷ s) h = let e : (c == 46) ≡ false = ground arith in rw e refl

accept_mark :
    (rest : Bytes) → ends_number rest ≡ true → accept (λ c. c == 101 || c == 69) rest ≡ ([], rest)
accept_mark [] h = refl
accept_mark (c ∷ s) h = let e : (c == 101 || c == 69) ≡ false = ground arith in rw e refl

append_nils : (ds : Bytes) → ds ++ [] ++ [] ++ [] ++ [] ++ [] ≡ ds
append_nils ds = rw (append-nil ds, append-nil ds, append-nil ds, append-nil ds, append-nil ds) refl

not_minus : (c : ℕ) → is_digit c ≡ true → (c == 45) ≡ false
not_minus c h = ground arith

scan-digits :
    (c : ℕ) (ds rest : Bytes)
    → all_digits (c ∷ ds) ≡ true
    → ends_number rest ≡ true
    → scan_number ((c ∷ ds) ++ rest) ≡ (c ∷ ds, false, rest)
unfolding scan_number all_digits
scan-digits c ds rest h k =
    let e : (c == 45) ≡ false = not_minus c (and_left (is_digit c) _ h) in
    rw (e, span_digits_lem (c ∷ ds) rest h k, accept_dot rest k, accept_mark rest k)
      (ap (λ (x : Bytes). (c ∷ x, false, rest)) (append_nils ds))

scan_minus :
    (ds rest : Bytes)
    → all_digits ds ≡ true
    → ends_number rest ≡ true
    → scan_number ((45 ∷ ds) ++ rest) ≡ (45 ∷ ds, false, rest)
unfolding scan_number
scan_minus ds rest h k =
    rw (span_digits_lem ds rest h k, accept_dot rest k, accept_mark rest k)
      (ap (λ (x : Bytes). (45 ∷ x, false, rest)) (append_nils ds))

snoc_cons : (s : Bytes) (x : ℕ) → (c : ℕ) × (ds : Bytes) × (s ++ x ∷ [] ≡ c ∷ ds)
snoc_cons [] x = (x, [], refl)
snoc_cons (c ∷ s) x = (c, s ++ x ∷ [], refl)

-- A decimal has a first digit.
pub decimal_cons : (n : ℕ) → (c : ℕ) × (ds : Bytes) × (decimal n ≡ c ∷ ds)
unfolding digits_of
decimal_cons n = elim (Bool-cases (ltb n 10)) [
  | inl h ↦ (48 + n, [], rw h refl)
  | inr h ↦ let (c, ds, e) = snoc_cons (digits_of n (n / 10)) (48 + n % 10) in (c, ds, rw h e)
]

stoll_digits-cons :
    (minus : Bool) (c : ℕ) (ds : Bytes)
    → stoll_digits minus (c ∷ ds)
      ≡ in_range (if minus then pos 0 -ℤ pos (number_of 0 (c ∷ ds)) else pos (number_of 0 (c ∷ ds)))
stoll_digits-cons true c ds = refl
stoll_digits-cons false c ds = refl

-- `std::stoll` on the digits of a number.
stoll_digits-decimal :
    (minus : Bool) (n : ℕ)
    → stoll_digits minus (decimal n) ≡ in_range (if minus then pos 0 -ℤ pos n else pos n)
stoll_digits-decimal minus n =
    let (c, ds, e) = decimal_cons n in
    let signed = λ (m : ℕ). in_range (if minus then pos 0 -ℤ pos m else pos m) in
    ap (stoll_digits minus) e
    ∙ stoll_digits-cons minus c ds
    ∙ ap (λ (x : Bytes). signed (number_of 0 x)) (sym e)
    ∙ ap signed (number_of-digits_of (suc n) n (omega arith))

module _ (stod : Bytes → Option ℕ) (rest : Bytes) (k : ends_number rest ≡ true) where
  parse-digits :
      (c : ℕ) (ds : Bytes)
      → all_digits (c ∷ ds) ≡ true
      → parse_number stod ((c ∷ ds) ++ rest) ≡ as_value int (stoll_digits false (c ∷ ds)) rest
  unfolding parse_number stoll all_digits
  parse-digits c ds h = rw (scan-digits c ds rest h k, not_minus c (and_left (is_digit c) _ h)) refl

  parse_minus :
      (ds : Bytes)
      → all_digits ds ≡ true
      → parse_number stod ((45 ∷ ds) ++ rest) ≡ as_value int (stoll_digits true ds) rest
  unfolding parse_number stoll
  parse_minus ds h = rw (scan_minus ds rest h k) refl

  -- `parseNumber` reads back a 64-bit integer that `std::to_string` writes, where no digit, dot or
  -- exponent stands behind it.
  pub parse_number-to_string :
      (a : ℤ) → is_int64 a ≡ true → parse_number stod (to_string a ++ rest) ≡ ok (int a) rest
  unfolding to_string
  parse_number-to_string (pos n) h =
      let (c, ds, e) = decimal_cons n in
      let digits = sym (ap all_digits e) ∙ all_digits-digits_of (suc n) n in
      ap (λ (x : Bytes). parse_number stod (x ++ rest)) e
      ∙ parse-digits c ds digits
      ∙ ap (λ (x : Bytes). as_value int (stoll_digits false x) rest) (sym e)
      ∙ ap (λ (o : Option ℤ). as_value int o rest) (stoll_digits-decimal false n)
      ∙ rw h refl
  parse_number-to_string (negsuc n) h =
      let z : pos 0 -ℤ pos (suc n) ≡ negsuc n = unfold ◌-ℤ◌ in ground arith in
      parse_minus (decimal (suc n)) (all_digits-digits_of (suc (suc n)) (suc n))
      ∙ ap (λ (o : Option ℤ). as_value int o rest) (stoll_digits-decimal true (suc n))
      ∙ rw (z, h) refl
