-- ===== src/Lsp.antt =====
-- Positions, paths and message frames of the language server: compiler/src/lsp/utf16.inc, uri.inc,
-- transport.inc and transport_impl.inc. A text is its bytes. A negative column, which the loops take as 0, is not a value here.
pub mod Lines
pub mod Uri
mod Columns
mod Joined
pub mod Frames
mod Streams
pub mod Server
mod Sessions
mod Enough
mod Words
mod Paths
mod Tests
use hphl.Base.{
  ℕ, zero, suc, ◌+◌, ◌/◌, Bool, true, false, Option, none, some, List, [], ◌∷◌, length, get_elem?,
  ltb, ◌==◌, if◌then◌else◌, ◌≡◌,
}
use hphl.Json.{Bytes}

-- How many bytes a lead byte says that its character has, and how many UTF-16 code units.
abbrev pub char_bytes : ℕ → ℕ
char_bytes c =
    if ltb c 128
    then 1
    else if c / 32 == 6
    then 2
    else if c / 16 == 14
    then 3
    else if c / 8 == 30
    then 4
    else 1

abbrev pub char_units : ℕ → ℕ
char_units c =
    if ltb c 128
    then 1
    else if c / 32 == 6
    then 1
    else if c / 16 == 14
    then 1
    else if c / 8 == 30
    then 2
    else 1

-- The loop of `utf16ToByte`; `i` grows, so that the length of the line is enough fuel.
unfoldable pub to_byte : ℕ → Bytes → ℕ → ℕ → ℕ → ℕ
to_byte zero line col i units = i
to_byte (suc k) line col i units = elim (get_elem? line i) [
  | none ↦ i
  | some c ↦
      let rest = to_byte k line col (i + char_bytes c) (units + char_units c) in
      if ltb units col then rest else i
]

-- `utf16ToByte`
unfoldable pub utf16_to_byte : Bytes → ℕ → ℕ
utf16_to_byte line col = to_byte (length line) line col 0 0

unfoldable pub to_units : ℕ → Bytes → ℕ → ℕ → ℕ → ℕ
to_units zero line col i units = units
to_units (suc k) line col i units = elim (get_elem? line i) [
  | none ↦ units
  | some c ↦
      let rest = to_units k line col (i + char_bytes c) (units + char_units c) in
      if ltb i col then rest else units
]

-- `byteToUtf16`
unfoldable pub byte_to_utf16 : Bytes → ℕ → ℕ
byte_to_utf16 line col = to_units (length line) line col 0 0

-- Whole characters lead from byte `i` of a line to byte `b`.
pub data Characters (line : Bytes) (b : ℕ) : ℕ → Type 0 where
  arrived : Characters line b b
  char :
      {i c : ℕ}
      → get_elem? line i ≡ some c
      → Characters line b (i + char_bytes c)
      → Characters line b i
