-- ===== src/Lsp/Lines.antt =====
-- `lineAt` and `wordAt` of compiler/src/lsp/utf16.inc. A read behind the byte that ends the line is
-- undefined in C++: it has no result.
use hphl.Base.{
  ℕ, zero, suc, ◌-◌, Bool, false, ◌&&◌, ◌||◌, Option, none, some, [], ◌∷◌, length, get_elem?, ltb,
  leb, ◌==◌, if◌then◌else◌,
}
use hphl.Json.{Bytes}

-- The text up to the first newline, and the text behind it.
unfoldable pub until_newline : Bytes → Bytes
until_newline [] = []
until_newline (c ∷ s) = let rest = until_newline s in if c == 10 then [] else c ∷ rest

unfoldable pub after_newline : Bytes → Option Bytes
after_newline [] = none
after_newline (c ∷ s) = let rest = after_newline s in if c == 10 then some s else rest

-- `line.pop_back()` of a last carriage return.
unfoldable pub without_cr : Bytes → Bytes
without_cr [] = []
without_cr (c ∷ []) = if c == 13 then [] else c ∷ []
without_cr (c ∷ d ∷ s) = c ∷ without_cr (d ∷ s)

-- `lineAt`
unfoldable pub line_at : Bytes → ℕ → Bytes
line_at text zero = without_cr (until_newline text)
line_at text (suc n) = elim (after_newline text) [ none ↦ [] | some rest ↦ line_at rest n ]

-- `std::isalnum` or an underscore.
abbrev pub is_word : ℕ → Bool
is_word c = (leb 48 c && leb c 57) || (leb 65 c && leb c 90) || (leb 97 c && leb c 122) || c == 95

abbrev pub word_byte : Bytes → ℕ → Bool
word_byte line i = elim (get_elem? line i) [ none ↦ false | some c ↦ is_word c ]

-- `line[i]`, with the zero byte that ends a `std::string`.
unfoldable pub char_at : Bytes → ℕ → Option ℕ
char_at line i = elim (get_elem? line i) [
  | none ↦ if i == length line then some 0 else none
  | some c ↦ some c
]

-- The loop on `s`, which does not compare it with the length of the line.
unfoldable pub word_start : Bytes → ℕ → Option ℕ
word_start line zero = some zero
word_start line (suc s) =
    let rest = word_start line s in
    elim (char_at line s) [ none ↦ none | some c ↦ if is_word c then rest else some (suc s) ]

-- The loop on `e`, on fuel: `e` stays in the line.

unfoldable pub word_end : ℕ → Bytes → ℕ → ℕ
word_end zero line e = e
word_end (suc k) line e = let rest = word_end k line (suc e) in if word_byte line e then rest else e

-- `line.substr(s, n)`
abbrev pub bytes_from : ℕ → Bytes → Bytes
bytes_from zero line = line
bytes_from (suc s) [] = []
bytes_from (suc s) (c ∷ line) = bytes_from s line

abbrev pub first_bytes : ℕ → Bytes → Bytes
first_bytes zero line = []
first_bytes (suc n) [] = []
first_bytes (suc n) (c ∷ line) = c ∷ first_bytes n line

pub record Word : Type 0 where
  pub text : Bytes
  pub byte_start : ℕ
  pub byte_end : ℕ

-- The answer when the loops have left `s` and `e`.
abbrev pub word_from : Bytes → ℕ → ℕ → Word
word_from line s e =
    if ltb s e
    then (record { text = first_bytes (e - s) (bytes_from s line); byte_start = s; byte_end = e })
    else (record { text = []; byte_start = 0; byte_end = 0 })

-- `wordAt`; no result when a read is undefined.
unfoldable pub word_at : Bytes → ℕ → Option Word
word_at line col = elim (word_start line col) [
  | none ↦ none
  | some s ↦ some (word_from line s (word_end (length line) line col))
]
