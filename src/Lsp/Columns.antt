-- ===== src/Lsp/Columns.antt =====
-- The columns of compiler/src/lsp/utf16.inc: from bytes to UTF-16 and back.
use hphl.Base.{
  ℕ, zero, suc, ◌+◌, ◌≤◌, true, false, length, get_elem?, get_elem?-lt, ltb, ◌≡◌, refl, ap, ◌∙◌,
  Option-cases, inl, inr, arith,
}
use hphl.Json.{Bytes}
use hphl.Lsp.{
  char_bytes, char_units, to_byte, utf16_to_byte, to_units, byte_to_utf16, Characters, arrived,
  char,
}

char_units-positive : (c : ℕ) → 1 ≤ char_units c
char_units-positive c = ground arith

char_bytes-positive : (c : ℕ) → 1 ≤ char_bytes c
char_bytes-positive c = ground arith

module _ (line : Bytes) (b : ℕ) where
  -- The code units of the characters.
  total : {i : ℕ} → Characters line b i → ℕ
  total arrived = 0
  total (char {i} {c} e p) = char_units c + total p

  le-b : {i : ℕ} → Characters line b i → i ≤ b
  le-b arrived = omega arith
  le-b (char {i} {c} e p) = omega (arith, le-b p)

  to_units-total :
      (k u : ℕ) {i : ℕ} (p : Characters line b i)
      → length line ≤ i + k
      → to_units k line b i u ≡ u + total p
  unfolding to_units total
  to_units-total zero u arrived h = omega arith
  to_units-total zero u (char {i} {c} e p) h = absurd (omega (arith, h, get_elem?-lt line i c e))
  to_units-total (suc k) u arrived h = elim (Option-cases (get_elem? line b)) [
    | inl n ↦ rw (n, to_units) (omega arith)
    | inr (c, n) ↦ let e : ltb b b ≡ false = ground arith in rw (n, to_units) (rw e (omega arith))
  ]
  to_units-total (suc k) u (char {i} {c} e p) h =
      let l : ltb i b ≡ true = ground (arith, le-b p, char_bytes-positive c) in
      rw (e, to_units)
        (rw l (
          to_units-total k (u + char_units c) p (omega (arith, h, char_bytes-positive c))
          ∙ omega arith))

  to_byte-total :
      (k u : ℕ) {i : ℕ} (p : Characters line b i)
      → length line ≤ i + k
      → to_byte k line (u + total p) i u ≡ b
  unfolding to_byte total
  to_byte-total zero u arrived h = refl
  to_byte-total zero u (char {i} {c} e p) h = absurd (omega (arith, h, get_elem?-lt line i c e))
  to_byte-total (suc k) u arrived h = elim (Option-cases (get_elem? line b)) [
    | inl n ↦ rw (n, to_byte) refl
    | inr (c, n) ↦ let e : ltb u (u + 0) ≡ false = ground arith in rw (n, to_byte) (rw e refl)
  ]
  to_byte-total (suc k) u (char {i} {c} e p) h =
      let l : ltb u (u + (char_units c + total p)) ≡ true = ground (arith, char_units-positive c) in
      let q : u + (char_units c + total p) ≡ (u + char_units c) + total p = omega arith in
      rw (e, to_byte)
        (rw (l, q) (to_byte-total k (u + char_units c) p (omega (arith, h, char_bytes-positive c))))

-- A byte column between two characters of a line, turned into a UTF-16 column, is turned back into
-- itself.
pub utf16_to_byte-byte_to_utf16 :
    (line : Bytes) (b : ℕ) → Characters line b 0 → utf16_to_byte line (byte_to_utf16 line b) ≡ b
unfolding utf16_to_byte byte_to_utf16
utf16_to_byte-byte_to_utf16 line b p =
    ap (λ (u : ℕ). to_byte (length line) line u 0 0)
      (to_units-total line b (length line) 0 p (omega arith))
    ∙ to_byte-total line b (length line) 0 p (omega arith)
