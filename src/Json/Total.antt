-- ===== src/Json/Total.antt =====
-- The fuel of the JSON parser: characters, strings and numbers.
use hphl.Base.{
  ℕ, zero, suc, ◌+◌, ◌≤◌, ◌≡◌, refl, Bool, true, false, ◌&&◌, ◌||◌, arith, ltb, leb, ◌==◌,
  if◌then◌else◌, Bool-cases, inl, inr, Option, none, some, [], ◌∷◌, ◌++◌, length,
}
use hphl.Json.{Bytes, JsonValue}
use hphl.Json.Scan.{
  Parsed, ok, failed, number_exception, out_of_fuel, Problem, and_then, skip_ws, is_space,
  hex_value, add_hex, hex_digit, hex_word, low_half, surrogate_pair, is_high, is_low,
  unicode_escape, read_escape, char_kind, CharKind, quote, backslash, other, parse_chars,
  parse_string,
}
use hphl.Json.Number.{
  is_digit, span_digits, accept, is_read, scan_number, as_value, number_value, parse_number, stoll,
}

-- The result leaves at most `m` bytes, or is an error or an exception; it is not the end of the fuel.
abbrev pub Leaves : {A : Type 0} → ℕ → Parsed A → Type 0
Leaves m (ok a s) = length s ≤ m
Leaves m (failed p s) = Unit
Leaves m number_exception = Unit
Leaves m out_of_fuel = ⊥

pub Leaves-and_then :
    {A B : Type 0} (m k : ℕ) (p : Parsed A) (f : A → Bytes → Parsed B)
    → Leaves m p
    → ((a : A) (s : Bytes) → length s ≤ m → Leaves k (f a s))
    → Leaves k (and_then p f)
Leaves-and_then m k (ok a s) f h g = g a s h
Leaves-and_then m k (failed p s) f h g = tt
Leaves-and_then m k number_exception f h g = tt
Leaves-and_then m k out_of_fuel f h g = elim h [ ]

pub Leaves-mono : {A : Type 0} (m k : ℕ) (p : Parsed A) → m ≤ k → Leaves m p → Leaves k p
Leaves-mono m k (ok a s) h l = omega (arith, h, l)
Leaves-mono m k (failed p s) h l = tt
Leaves-mono m k number_exception h l = tt
Leaves-mono m k out_of_fuel h l = elim l [ ]

pub length-skip_ws : (s : Bytes) → length (skip_ws s) ≤ length s
unfolding skip_ws
length-skip_ws [] = omega arith
length-skip_ws (c ∷ s) =
    let rest = length-skip_ws s in
    elim (Bool-cases (is_space c)) [
      | inl h ↦ rw h (omega (arith, rest))
      | inr h ↦ rw h (omega arith)
    ]

-- Four hexadecimal digits take bytes and no fuel.
Leaves-hex_digit : (p : Problem) (n : ℕ) (s : Bytes) → Leaves (length s) (hex_digit p n s)
Leaves-hex_digit p n [] = tt
Leaves-hex_digit p n (h ∷ s) = add (hex_value h)
  where
    add : (o : Option ℕ) → Leaves (suc (length s)) (add_hex p s n o)
    add none = tt
    add (some k) = omega arith

Leaves-hex_word : (p : Problem) (s : Bytes) → Leaves (length s) (hex_word p s)
unfolding hex_word
Leaves-hex_word p s =
    Leaves-and_then (length s) (length s) (hex_digit p 0 s) _ (Leaves-hex_digit p 0 s) (λ n1 s1 h1.
      Leaves-and_then (length s) (length s) (hex_digit p n1 s1) _
        (Leaves-mono (length s1) (length s) _ h1 (Leaves-hex_digit p n1 s1))
        (λ n2 s2 h2.
          Leaves-and_then (length s) (length s) (hex_digit p n2 s2) _
            (Leaves-mono (length s2) (length s) _ h2 (Leaves-hex_digit p n2 s2))
            (λ n3 s3 h3. Leaves-mono (length s3) (length s) _ h3 (Leaves-hex_digit p n3 s3))))

Leaves-low_half : (cp : ℕ) (s : Bytes) → Leaves (length s) (low_half cp s)
Leaves-low_half cp s =
    Leaves-and_then (length s) (length s) (hex_word _ s) _ (Leaves-hex_word _ s) (λ lo rest h. h)

-- Both results of a test.
Leaves-if :
    {A : Type 0} (m : ℕ) (b : Bool) (p q : Parsed A)
    → Leaves m p
    → Leaves m q
    → Leaves m (if b then p else q)
Leaves-if m true p q h k = h
Leaves-if m false p q h k = k

Leaves-surrogate_pair : (cp : ℕ) (s : Bytes) → Leaves (length s) (surrogate_pair cp s)
unfolding surrogate_pair
Leaves-surrogate_pair cp [] = tt
Leaves-surrogate_pair cp (a ∷ []) = tt
Leaves-surrogate_pair cp (a ∷ b ∷ s) =
    Leaves-if (suc (suc (length s))) (a == 92 && b == 117 && leb 4 (length s)) (low_half cp s) _
      (Leaves-mono (length s) (suc (suc (length s))) _ (omega arith) (Leaves-low_half cp s)) tt

Leaves-unicode_escape : (s : Bytes) → Leaves (length s) (unicode_escape s)
unfolding unicode_escape
Leaves-unicode_escape s = Leaves-if (length s) (ltb (length s) 4) _ _ tt (
    Leaves-and_then (length s) (length s) (hex_word _ s) _ (Leaves-hex_word _ s) (λ cp rest h.
      Leaves-if (length s) (is_high cp) (surrogate_pair cp rest) _
        (Leaves-mono (length rest) (length s) _ h (Leaves-surrogate_pair cp rest))
        (Leaves-if (length s) (is_low cp) _ _ tt h)))

Leaves-read_escape : (s : Bytes) → Leaves (length s) (read_escape s)
unfolding read_escape
Leaves-read_escape [] = tt
Leaves-read_escape (e ∷ s) =
    let m = suc (length s) in
    let le : length s ≤ m = omega arith in
    Leaves-if m (e == 34) _ _ le (
      Leaves-if m (e == 92) _ _ le (
        Leaves-if m (e == 47) _ _ le (
          Leaves-if m (e == 98) _ _ le (
            Leaves-if m (e == 102) _ _ le (
              Leaves-if m (e == 110) _ _ le (
                Leaves-if m (e == 114) _ _ le (
                  Leaves-if m (e == 116) _ _ le (
                    Leaves-if m (e == 117) (unicode_escape s) _
                      (Leaves-mono (length s) m _ le (Leaves-unicode_escape s)) tt))))))))

-- One round of the loop of `parseString`.
chars_step :
    (n c : ℕ) (s out : Bytes)
    → ((out' t : Bytes) → length t ≤ length s → Leaves (length t) (parse_chars n out' t))
    → (k : CharKind) → char_kind c ≡ k
    → Leaves (suc (length s)) (parse_chars (suc n) out (c ∷ s))
unfolding parse_chars
chars_step n c s out ih quote e = rw (e, parse_chars) (omega arith)
chars_step n c s out ih backslash e =
    rw (e, parse_chars)
      (Leaves-and_then (length s) (suc (length s)) (read_escape s) _ (Leaves-read_escape s)
        (λ bs rest h.
          Leaves-mono (length rest) (suc (length s)) _ (omega (arith, h)) (ih (out ++ bs) rest h)))
chars_step n c s out ih other e =
    rw (e, parse_chars)
      (Leaves-mono (length s) (suc (length s)) _ (omega arith) (ih (out ++ c ∷ []) s (omega arith)))

Leaves-parse_chars :
    (n : ℕ) (out s : Bytes) → length s + 1 ≤ n → Leaves (length s) (parse_chars n out s)
Leaves-parse_chars zero out s h = absurd (omega (arith, h))
Leaves-parse_chars (suc n) out [] h = unfold parse_chars in tt
Leaves-parse_chars (suc n) out (c ∷ s) h =
    chars_step n c s out (λ out' t le. Leaves-parse_chars n out' t (omega (arith, le, h)))
      (char_kind c) refl

pub Leaves-parse_string : (s : Bytes) → Leaves (length s) (parse_string s)
unfolding parse_string
Leaves-parse_string [] = tt
Leaves-parse_string (c ∷ s) =
    Leaves-mono (length s) (suc (length s)) _ (omega arith)
      (Leaves-parse_chars (suc (length s)) [] s (omega arith))

length-span_digits : (s : Bytes) → length (span_digits s).1 ≤ length s
unfolding span_digits
length-span_digits [] = omega arith
length-span_digits (c ∷ s) =
    let rest = length-span_digits s in
    elim (Bool-cases (is_digit c)) [
      | inl h ↦ rw h (omega (arith, rest))
      | inr h ↦ rw h (omega arith)
    ]

length-accept : (p : ℕ → Bool) (s : Bytes) → length (accept p s).1 ≤ length s
length-accept p [] = omega arith
length-accept p (c ∷ s) = elim (Bool-cases (p c)) [
  | inl h ↦ rw h (omega arith)
  | inr h ↦ rw h (omega arith)
]

length-if :
    (b : Bool) (p q : Bytes × Bytes) (m : ℕ)
    → length p.1 ≤ m
    → length q.1 ≤ m
    → length (if b then p else q).1 ≤ m
length-if true p q m h k = h
length-if false p q m h k = k

length-scan_number : (s : Bytes) → length (scan_number s).2 ≤ length s
unfolding scan_number
length-scan_number s =
    let a1 = accept (λ c. c == 45) s in
    let a2 = span_digits a1.1 in
    let a3 = accept (λ c. c == 46) a2.1 in
    let a4 = if is_read a3.0 then span_digits a3.1 else ([], a3.1) in
    let a5 = accept (λ c. c == 101 || c == 69) a4.1 in
    let a6 = if is_read a5.0 then accept (λ c. c == 43 || c == 45) a5.1 else ([], a5.1) in
    let a7 = if is_read a5.0 then span_digits a6.1 else ([], a6.1) in
    let h1 = length-accept (λ c. c == 45) s in
    let h2 = length-span_digits a1.1 in
    let h3 = length-accept (λ c. c == 46) a2.1 in
    let h4 : length a4.1 ≤ length a3.1 =
      length-if (is_read a3.0) (span_digits a3.1) ([], a3.1) (length a3.1) (length-span_digits a3.1)
        (omega arith) in
    let h5 = length-accept (λ c. c == 101 || c == 69) a4.1 in
    let h6 : length a6.1 ≤ length a5.1 =
      length-if (is_read a5.0) (accept (λ c. c == 43 || c == 45) a5.1) ([], a5.1) (length a5.1)
        (length-accept (λ c. c == 43 || c == 45) a5.1) (omega arith) in
    let h7 : length a7.1 ≤ length a6.1 =
      length-if (is_read a5.0) (span_digits a6.1) ([], a6.1) (length a6.1) (length-span_digits a6.1)
        (omega arith) in
    omega (arith, h1, h2, h3, h4, h5, h6, h7)

module _ (stod : Bytes → Option ℕ) where
  Leaves-as_value :
      {A : Type 0} (f : A → JsonValue) (o : Option A) (s : Bytes)
      → Leaves (length s) (as_value f o s)
  Leaves-as_value f none s = tt
  Leaves-as_value f (some a) s = omega arith

  Leaves-number_value :
      (text : Bytes) (floating : Bool) (s : Bytes)
      → Leaves (length s) (number_value stod (text, floating, s))
  Leaves-number_value [] floating s = tt
  Leaves-number_value (c ∷ text) true s = Leaves-as_value _ (stod (c ∷ text)) s
  Leaves-number_value (c ∷ text) false s = Leaves-as_value _ (stoll (c ∷ text)) s

  pub Leaves-parse_number : (s : Bytes) → Leaves (length s) (parse_number stod s)
  unfolding parse_number
  Leaves-parse_number s =
      let p = scan_number s in
      Leaves-mono (length p.2) (length s) _ (length-scan_number s) (Leaves-number_value p.0 p.1 p.2)
