-- ===== src/Lsp/Frames.antt =====
-- `readFrame` and `writeFrame` of compiler/src/lsp/transport.inc. The standard input is the bytes that
-- are left in it. The body that `readFrame` leaves where it returns false is not in the model.
use hphl.Base.{
  ℕ, ◌+◌, Bool, false, ◌&&◌, ◌||◌, Option, none, some, List, [], ◌∷◌, ◌++◌, length, leb, ◌==◌,
  if◌then◌else◌,
}
use hphl.Base.Int.{ℤ, pos, negsuc, ◌-ℤ◌}
use hphl.Json.{Bytes, same_bytes}
use hphl.Json.Text.{decimal}
use hphl.Json.Number.{span_digits, number_of}
use hphl.Mir.{codes}
use hphl.Lsp.Lines.{bytes_from, first_bytes}

-- Whether a header ends in an empty line: its bytes, the last one first.
unfoldable pub ends_header : Bytes → Bool
ends_header (a ∷ b ∷ c ∷ d ∷ h) = a == 10 && b == 13 && c == 10 && d == 13
ends_header h = false

-- The bytes that the header `h`, the last one first, still takes from the input, and the bytes left.
unfoldable pub read_header : Bytes → Bytes → Bytes × Bytes
read_header h [] = ([], [])
read_header h (c ∷ s) =
    let (more, rest) = read_header (c ∷ h) s in
    if ends_header (c ∷ h) then (c ∷ [], s) else (c ∷ more, rest)

-- A byte before the first line; without a line break behind it, it is in no line.
abbrev pub onto_line : ℕ → List Bytes → List Bytes
onto_line c [] = []
onto_line c (l ∷ ls) = (c ∷ l) ∷ ls

-- The lines that the loop over the header finds.
unfoldable pub header_lines : Bytes → List Bytes
header_lines [] = []
header_lines (c ∷ []) = []
header_lines (c ∷ d ∷ s) =
    let next = header_lines s in
    let on = header_lines (d ∷ s) in if c == 13 && d == 10 then [] ∷ next else onto_line c on

-- `std::tolower`
abbrev pub to_lower : ℕ → ℕ
to_lower c = if leb 65 c && leb c 90 then c + 32 else c

unfoldable pub lower_line : Bytes → Bytes
lower_line [] = []
lower_line (c ∷ s) = to_lower c ∷ lower_line s

abbrev pub is_length_line : Bytes → Bool
is_length_line line = same_bytes (first_bytes 15 (lower_line line)) (codes "content-length:")

-- `std::atoll`, where the number fits in a `long long`.
unfoldable pub after_spaces : Bytes → Bytes
after_spaces [] = []
after_spaces (c ∷ s) =
    let rest = after_spaces s in if c == 32 || (leb 9 c && leb c 13) then rest else c ∷ s

abbrev pub digits_value : Bytes → ℕ
digits_value s = number_of 0 (span_digits s).0

unfoldable pub signed_value : Bytes → ℤ
signed_value [] = pos 0
signed_value (c ∷ s) =
    if c == 45
    then pos 0 -ℤ pos (digits_value s)
    else if c == 43
    then pos (digits_value s)
    else pos (digits_value (c ∷ s))

abbrev pub atoll : Bytes → ℤ
atoll s = signed_value (after_spaces s)

unfoldable pub content_length : List Bytes → ℤ
content_length [] = negsuc 0
content_length (l ∷ ls) =
    let rest = content_length ls in if is_length_line l then atoll (bytes_from 15 l) else rest

abbrev pub read_body : ℤ → Bytes → Option Bytes × Bytes
read_body (negsuc n) s = (none, s)
read_body (pos n) s = (if leb n (length s) then some (first_bytes n s) else none, bytes_from n s)

-- `readFrame`: the body, or `none` for false, and the input that is left.
abbrev pub framed : Bytes → Bytes → Option Bytes × Bytes
framed [] s = (none, s)
framed (c ∷ header) s = read_body (content_length (header_lines (c ∷ header))) s

unfoldable pub read_frame : Bytes → Option Bytes × Bytes
read_frame s = let (header, rest) = read_header [] s in framed header rest

-- `writeFrame`
unfoldable pub write_frame : Bytes → Bytes
write_frame b = codes "Content-Length: " ++ decimal (length b) ++ 13 ∷ 10 ∷ 13 ∷ 10 ∷ b
