-- ===== src/Json/Escapes.antt =====
-- `parseString` on what `jsonEscape` writes.
use mathlib.Core.List.{append_assoc, append-nil}
use hphl.Base.{
  ℕ, zero, suc, ◌/◌, ◌%◌, ◌<◌, ◌≤◌, ◌≡◌, refl, sym, ap, ◌∙◌, true, false, arith, ltb, ◌==◌,
  Bool-cases, inl, inr, some, [], ◌∷◌, ◌++◌, length, length-append,
}
use hphl.Json.{Bytes, string}
use hphl.Json.Text.{hex_char, escape_byte, json_escape, quoted}
use hphl.Json.Scan.{
  ok, hex_value, hex_word, bad_hex, utf8_encode, unicode_escape, read_escape, parse_chars,
  parse_string, char_kind, other, is_high, is_low,
}

hex_value-hex_char : (k : ℕ) → k < 16 → hex_value (hex_char k) ≡ some k
hex_value-hex_char k h = ground arith

-- The four digits that are written for a control byte.
hex_word-control :
    (c : ℕ) (s : Bytes)
    → c < 32
    → hex_word bad_hex (48 ∷ 48 ∷ hex_char (c / 16) ∷ hex_char (c % 16) ∷ s) ≡ ok c s
unfolding hex_word
hex_word-control c s h =
    rw (hex_value-hex_char (c / 16) (omega arith), hex_value-hex_char (c % 16) (omega arith))
      (ap (λ (n : ℕ). ok n s) (omega arith))

utf8_encode-small : (c : ℕ) → c < 128 → utf8_encode c ≡ c ∷ []
unfolding utf8_encode
utf8_encode-small c h = ground arith

unicode_escape-control :
    (c : ℕ) (s : Bytes)
    → c < 32
    → unicode_escape (48 ∷ 48 ∷ hex_char (c / 16) ∷ hex_char (c % 16) ∷ s) ≡ ok (c ∷ []) s
unfolding unicode_escape
unicode_escape-control c s h =
    let l : ltb (length (48 ∷ 48 ∷ hex_char (c / 16) ∷ hex_char (c % 16) ∷ s)) 4 ≡ false =
      ground arith in
    let hi : is_high c ≡ false = ground arith in
    let lo : is_low c ≡ false = ground arith in
    rw (l, hex_word-control c s h, hi, lo)
      (ap (λ (bs : Bytes). ok bs s) (utf8_encode-small c (omega arith)))

-- A byte that is written behind a backslash.
scan_pair :
    (e c k : ℕ) (s out : Bytes) (n : ℕ)
    → (c == k) ≡ true
    → read_escape (e ∷ s) ≡ ok (k ∷ []) s
    → parse_chars (suc n) out (92 ∷ e ∷ s) ≡ parse_chars n (out ++ c ∷ []) s
unfolding parse_chars
scan_pair e c k s out n h r =
    let q : k ≡ c = ground arith in rw r (ap (λ (x : ℕ). parse_chars n (out ++ x ∷ []) s) q)

below : (c : ℕ) → ltb c 32 ≡ true → c < 32
below c h = ground arith

scan-control :
    (c : ℕ) (s out : Bytes) (n : ℕ)
    → c < 32
    → parse_chars (suc n) out (92 ∷ 117 ∷ 48 ∷ 48 ∷ hex_char (c / 16) ∷ hex_char (c % 16) ∷ s)
      ≡ parse_chars n (out ++ c ∷ []) s
unfolding parse_chars read_escape
scan-control c s out n h = rw (unicode_escape-control c s h) refl

scan_plain :
    (c : ℕ) (s out : Bytes) (n : ℕ)
    → (c == 34) ≡ false
    → (c == 92) ≡ false
    → parse_chars (suc n) out (c ∷ s) ≡ parse_chars n (out ++ c ∷ []) s
unfolding parse_chars
scan_plain c s out n h k = let e : char_kind c ≡ other = rw (h, k) refl in rw (e, parse_chars) refl

-- One escaped byte is read as that byte.
scan-escape_byte :
    (c : ℕ) (s out : Bytes) (n : ℕ)
    → parse_chars (suc n) out (escape_byte c ++ s) ≡ parse_chars n (out ++ c ∷ []) s
unfolding escape_byte read_escape
scan-escape_byte c s out n = elim (Bool-cases (c == 34)) [
  | inl h0 ↦ rw h0 (scan_pair 34 c 34 s out n h0 refl)
  | inr h0 ↦ elim (Bool-cases (c == 92)) [
    | inl h1 ↦ rw (h0, h1) (scan_pair 92 c 92 s out n h1 refl)
    | inr h1 ↦ elim (Bool-cases (c == 10)) [
      | inl h2 ↦ rw (h0, h1, h2) (scan_pair 110 c 10 s out n h2 refl)
      | inr h2 ↦ elim (Bool-cases (c == 13)) [
        | inl h3 ↦ rw (h0, h1, h2, h3) (scan_pair 114 c 13 s out n h3 refl)
        | inr h3 ↦ elim (Bool-cases (c == 9)) [
          | inl h4 ↦ rw (h0, h1, h2, h3, h4) (scan_pair 116 c 9 s out n h4 refl)
          | inr h4 ↦ elim (Bool-cases (c == 8)) [
            | inl h5 ↦ rw (h0, h1, h2, h3, h4, h5) (scan_pair 98 c 8 s out n h5 refl)
            | inr h5 ↦ elim (Bool-cases (c == 12)) [
              | inl h6 ↦ rw (h0, h1, h2, h3, h4, h5, h6) (scan_pair 102 c 12 s out n h6 refl)
              | inr h6 ↦ elim (Bool-cases (ltb c 32)) [
                | inl l ↦ rw (h0, h1, h2, h3, h4, h5, h6, l) (scan-control c s out n (below c l))
                | inr l ↦ rw (h0, h1, h2, h3, h4, h5, h6, l) (scan_plain c s out n h0 h1)
              ]
            ]
          ]
        ]
      ]
    ]
  ]
]

-- The escaped string up to the closing quote is read as the string.
parse_chars-json_escape :
    (bs rest out : Bytes) (n : ℕ)
    → length bs < n
    → parse_chars n out (json_escape bs ++ 34 ∷ rest) ≡ ok (string (out ++ bs)) rest
unfolding json_escape
parse_chars-json_escape bs rest out zero h = absurd (omega arith)
parse_chars-json_escape [] rest out (suc n) h =
    unfold parse_chars in ap (λ (x : Bytes). ok (string x) rest) (sym (append-nil out))
parse_chars-json_escape (c ∷ bs) rest out (suc n) h =
    ap (parse_chars (suc n) out) (append_assoc (escape_byte c) (json_escape bs) (34 ∷ rest))
    ∙ scan-escape_byte c (json_escape bs ++ 34 ∷ rest) out n
    ∙ parse_chars-json_escape bs rest (out ++ c ∷ []) n (omega arith)
    ∙ ap (λ (x : Bytes). ok (string x) rest) (append_assoc out (c ∷ []) bs)

length-escape_byte : (c : ℕ) → 1 ≤ length (escape_byte c)
unfolding escape_byte
length-escape_byte c = ground arith

length-json_escape : (bs : Bytes) → length bs ≤ length (json_escape bs)
unfolding json_escape
length-json_escape [] = omega arith
length-json_escape (c ∷ bs) = omega (
  arith,
  length-escape_byte c,
  length-json_escape bs,
  length-append (escape_byte c) (json_escape bs),
)

-- What `jsonEscape` writes between quotes, `parseString` reads back, with any bytes behind it.
pub parse_string-quoted : (bs rest : Bytes) → parse_string (quoted bs ++ rest) ≡ ok (string bs) rest
unfolding parse_string quoted
parse_string-quoted bs rest =
    let e = append_assoc (json_escape bs) (34 ∷ []) rest in
    ap (λ (x : Bytes). parse_chars (suc (length x)) [] x) e
    ∙ parse_chars-json_escape bs rest [] (suc (length (json_escape bs ++ 34 ∷ rest)))
        (omega (arith, length-json_escape bs, length-append (json_escape bs) (34 ∷ rest)))
