-- ===== src/Lsp/Words.antt =====
-- `wordAt` of compiler/src/lsp/utf16.inc finds the whole word around a column.
use hphl.Base.{
  ℕ, zero, suc, ◌+◌, ◌-◌, ◌≤◌, ◌<◌, true, false, none, some, [], ◌∷◌, length, get_elem?,
  get_elem?-lt, ltb, ◌==◌, ◌≡◌, refl, sym, ap, ◌∙◌, Bool-cases, Option-cases, inl, inr, arith,
}
use mathlib.Core.Option.{none-ne-some}
use hphl.Json.{Bytes}
use hphl.Lsp.Lines.{
  is_word, word_byte, char_at, word_start, word_end, bytes_from, first_bytes, Word, word_from,
  word_at,
}

-- The bytes from `s` to `e` are those of a word, and their neighbours are not.
pub record IsWhole (line : Bytes) (s e : ℕ) : Type 0 where
  inside : (i : ℕ) → s ≤ i → i < e → word_byte line i ≡ true
  left : (p : ℕ) → suc p ≡ s → word_byte line p ≡ false
  right : word_byte line e ≡ false

get_elem?-missing : (line : Bytes) (i : ℕ) → get_elem? line i ≡ none → length line ≤ i
get_elem?-missing [] i e = omega arith
get_elem?-missing (c ∷ line) zero e = absurd (none-ne-some _ (sym e))
get_elem?-missing (c ∷ line) (suc i) e = omega (arith, get_elem?-missing line i e)

module _ (line : Bytes) where
  word_byte-outside : (i : ℕ) → length line ≤ i → word_byte line i ≡ false
  word_byte-outside i h = elim (Option-cases (get_elem? line i)) [
    | inl n ↦ rw (n, word_byte) refl
    | inr (c, n) ↦ absurd (omega (arith, h, get_elem?-lt line i c n))
  ]

  record Started (s col : ℕ) : Type 0 where
    before : s ≤ col
    inside : (i : ℕ) → s ≤ i → i < col → word_byte line i ≡ true
    left : (p : ℕ) → suc p ≡ s → word_byte line p ≡ false

  -- The byte that the loop on `s` reads at most one place behind the line.
  char_at-word_byte :
      (i : ℕ)
      → i ≤ length line
      → (c : ℕ) × (char_at line i ≡ some c) × (is_word c ≡ word_byte line i)
  unfolding char_at
  char_at-word_byte i h = elim (Option-cases (get_elem? line i)) [
    | inl n ↦
        let e : (i == length line) ≡ true = ground (arith, h, get_elem?-missing line i n) in
        (0, rw (n, char_at, e) refl, rw (n, word_byte) refl)
    | inr (c, n) ↦ (c, rw (n, char_at) refl, rw (n, word_byte) refl)
  ]

  word_start-Started :
      (col : ℕ) → col ≤ suc (length line) → (s : ℕ) × (word_start line col ≡ some s) × Started s col
  unfolding word_start
  word_start-Started zero h = (
    0,
    refl,
    record {
      before = omega arith;
      inside = λ i h l. absurd (omega (arith, l));
      left = λ p e. absurd (omega (arith, e));
    },
  )
  word_start-Started (suc col) h =
      let (c, read, same) = char_at-word_byte col (omega (arith, h)) in
      elim (Bool-cases (is_word c)) [
        | inl b ↦
            let (s, e, r) = word_start-Started col (omega (arith, h)) in
            (
              s,
              rw (read, word_start, b) e,
              record {
                before = omega (arith, r.before);
                inside = λ i h l. elim (Bool-cases (i == col)) [
                  | inl e ↦
                      let q : i ≡ col = ground (arith, e) in ap (word_byte line) q ∙ sym same ∙ b
                  | inr e ↦ r.inside i h (ground (arith, e, l))
                ];
                left = r.left;
              },
            )
        | inr b ↦ (
          suc col,
          rw (read, word_start, b) refl,
          record {
            before = omega arith;
            inside = λ i h l. absurd (omega (arith, h, l));
            left =
                λ p e. let q : p ≡ col = omega (arith, e) in ap (word_byte line) q ∙ sym same ∙ b;
          },
        )
      ]

  record Ended (col e : ℕ) : Type 0 where
    after : col ≤ e
    inside : (i : ℕ) → col ≤ i → i < e → word_byte line i ≡ true
    right : word_byte line e ≡ false

  word_end-Ended : (k col : ℕ) → length line ≤ col + k → Ended col (word_end k line col)
  unfolding word_end
  word_end-Ended zero col h = record {
    after = omega arith;
    inside = λ i l m. absurd (omega (arith, l, m));
    right = word_byte-outside col (omega (arith, h));
  }
  word_end-Ended (suc k) col h = elim (Bool-cases (word_byte line col)) [
    | inl b ↦
        let r = word_end-Ended k (suc col) (omega (arith, h)) in
        rw b (record {
          after = omega (arith, r.after);
          inside = λ i l m. elim (Bool-cases (i == col)) [
            | inl e ↦ let q : i ≡ col = ground (arith, e) in ap (word_byte line) q ∙ b
            | inr e ↦ r.inside i (ground (arith, e, l)) m
          ];
          right = r.right;
        })
    | inr b ↦
        rw b (record {
          after = omega arith;
          inside = λ i l m. absurd (omega (arith, l, m));
          right = b;
        })
  ]

pub data Found (line : Bytes) (col : ℕ) (w : Word) : Type 0 where
  word :
      IsWhole line w.byte_start w.byte_end
      → w.byte_start ≤ col
      → col ≤ w.byte_end
      → w.text ≡ first_bytes (w.byte_end - w.byte_start) (bytes_from w.byte_start line)
      → Found line col w
  no_word :
      w.text ≡ []
      → word_byte line col ≡ false
      → ((p : ℕ) → suc p ≡ col → word_byte line p ≡ false)
      → Found line col w

-- At a column of the line, or at the next one, `wordAt` reads only bytes of the line or the one that
-- ends it. It answers a word that holds or touches the column and that no byte of a word borders on,
-- with its text; or no word, and then no byte of a word is on either side of the column.
pub word_at-Found :
    (line : Bytes) (col : ℕ)
    → col ≤ suc (length line)
    → (w : Word) × (word_at line col ≡ some w) × Found line col w
unfolding word_at
word_at-Found line col h =
    let (start, found, s) = word_start-Started line col h in
    let k : length line ≤ col + length line = omega arith in
    let e = word_end-Ended line (length line) col k in
    let end = word_end (length line) line col in
    (
      word_from line start end,
      rw (found, word_at) refl,
      elim (Bool-cases (ltb start end)) [
        | inl b ↦ rw b (
            word
              (record {
                inside = λ i h l. elim (Bool-cases (ltb i col)) [
                  | inl x ↦ s.inside i h (ground (arith, x))
                  | inr x ↦ e.inside i (ground (arith, x)) l
                ];
                left = s.left;
                right = e.right;
              })
              s.before e.after refl)
        | inr b ↦
            let none_before : start ≡ col = ground (arith, b, s.before, e.after) in
            let none_after : end ≡ col = ground (arith, b, s.before, e.after) in
            rw b (
              no_word refl (sym (ap (word_byte line) none_after) ∙ e.right)
                (λ p h. s.left p (h ∙ sym none_before)))
      ],
    )
