-- ===== src/Lsp/Streams.antt =====
-- `readFrame` on what `writeFrame` of compiler/src/lsp/transport.inc writes.
use mathlib.Core.List.{append-nil, append_assoc}
use hphl.Base.{
  ℕ, suc, ◌≡◌, refl, sym, ap, ◌∙◌, Bool, true, false, ◌&&◌, leb, ◌==◌, arith, some, List, [], ◌∷◌,
  ◌++◌, length, and_left, and_right, and_intro,
}
use hphl.Base.Int.{ℤ, pos}
use hphl.Json.{Bytes, same_bytes}
use hphl.Json.Text.{decimal}
use hphl.Json.Number.{span_digits, is_digit, number_of}
use hphl.Json.Digits.{
  all_digits, all_digits-digits_of, number_of-digits_of, decimal_cons, span_digits_lem,
}
use hphl.Mir.{codes}
use hphl.Lsp.Lines.{bytes_from, first_bytes}
use hphl.Lsp.Frames.{
  ends_header, read_header, header_lines, onto_line, after_spaces, signed_value, atoll,
  content_length, lower_line, read_body, framed, read_frame, write_frame,
}

-- No control byte.
unfoldable pub is_visible : Bytes → Bool
is_visible [] = true
is_visible (c ∷ s) = leb 32 c && is_visible s

is_visible-digits : (s : Bytes) → all_digits s ≡ true → is_visible s ≡ true
unfolding is_visible all_digits
is_visible-digits [] h = refl
is_visible-digits (c ∷ s) h =
    let d = and_left (is_digit c) _ h in
    and_intro (leb 32 c) _ (ground arith) (is_visible-digits s (and_right (is_digit c) _ h))

abbrev pub starts_visible : Bytes → Bool
starts_visible [] = true
starts_visible (c ∷ h) = leb 32 c

ends_header-visible : (c : ℕ) (h : Bytes) → leb 32 c ≡ true → ends_header (c ∷ h) ≡ false
unfolding ends_header
ends_header-visible c [] k = refl
ends_header-visible c (x ∷ []) k = refl
ends_header-visible c (x ∷ y ∷ []) k = refl
ends_header-visible c (x ∷ y ∷ z ∷ h) k = ground arith

ends_header-line : (h : Bytes) → starts_visible h ≡ true → ends_header (10 ∷ 13 ∷ h) ≡ false
unfolding ends_header
ends_header-line [] k = refl
ends_header-line (x ∷ []) k = refl
ends_header-line (x ∷ y ∷ h) k = ground arith

ends_header-return : (h : Bytes) → ends_header (13 ∷ h) ≡ false
unfolding ends_header
ends_header-return [] = refl
ends_header-return (x ∷ []) = refl
ends_header-return (x ∷ y ∷ []) = refl
ends_header-return (x ∷ y ∷ z ∷ h) = refl

read_header-visible :
    (t h s : Bytes)
    → is_visible t ≡ true
    → starts_visible h ≡ true
    → read_header h (t ++ 13 ∷ 10 ∷ 13 ∷ 10 ∷ s) ≡ (t ++ 13 ∷ 10 ∷ 13 ∷ 10 ∷ [], s)
unfolding read_header is_visible
read_header-visible [] h s v k =
    rw (ends_header-return h, ends_header-line h k, ends_header-return (10 ∷ 13 ∷ h))
      (unfold ends_header in refl)
read_header-visible (c ∷ t) h s v k =
    let l = and_left (leb 32 c) _ v in
    rw (ends_header-visible c h l, read_header-visible t (c ∷ h) s (and_right (leb 32 c) _ v) l)
      refl

header_lines-visible :
    (t s : Bytes) → is_visible t ≡ true → header_lines (t ++ 13 ∷ 10 ∷ s) ≡ t ∷ header_lines s
unfolding header_lines is_visible
header_lines-visible [] s v = refl
header_lines-visible (c ∷ []) s v =
    let e : (c == 13) ≡ false = ground arith in rw (e, header_lines) refl
header_lines-visible (c ∷ d ∷ t) s v =
    let e : (c == 13) ≡ false = ground arith in
    rw e (
      ap (onto_line c)
        (header_lines-visible (d ∷ t) s (and_right (leb 32 c) (leb 32 d && is_visible t) v)))

after_spaces-digits : (c : ℕ) (ds : Bytes) → is_digit c ≡ true → after_spaces (32 ∷ c ∷ ds) ≡ c ∷ ds
unfolding after_spaces
after_spaces-digits c ds h = ground arith

signed_value-digits :
    (c : ℕ) (ds : Bytes)
    → all_digits (c ∷ ds) ≡ true
    → signed_value (c ∷ ds) ≡ pos (number_of 0 (c ∷ ds))
unfolding signed_value
signed_value-digits c ds h =
    let d : is_digit c ≡ true = unfold all_digits in and_left (is_digit c) _ h in
    let e : (c == 45) ≡ false = ground arith in
    let f : (c == 43) ≡ false = ground arith in
    let g = ap span_digits (sym (append-nil (c ∷ ds))) ∙ span_digits_lem (c ∷ ds) [] h refl in
    rw (e, f) (ap (λ (x : Bytes × Bytes). pos (number_of 0 x.0)) g)

-- `atoll` reads back a decimal behind a space.
atoll-decimal : (n : ℕ) → atoll (32 ∷ decimal n) ≡ pos n
atoll-decimal n =
    let (c, ds, e) = decimal_cons n in
    let h = sym (ap all_digits e) ∙ all_digits-digits_of (suc n) n in
    let d : is_digit c ≡ true = unfold all_digits in and_left (is_digit c) _ h in
    ap (λ (x : Bytes). atoll (32 ∷ x)) e
    ∙ ap signed_value (after_spaces-digits c ds d)
    ∙ signed_value-digits c ds h
    ∙ ap (λ (x : Bytes). pos (number_of 0 x)) (sym e)
    ∙ ap pos (number_of-digits_of (suc n) n (omega arith))

content_length-decimal :
    (n : ℕ) (ls : List Bytes)
    → content_length ((codes "Content-Length: " ++ decimal n) ∷ ls) ≡ pos n
unfolding content_length lower_line same_bytes
content_length-decimal n ls = atoll-decimal n

length-front : (b s : Bytes) → leb (length b) (length (b ++ s)) ≡ true
length-front [] s = ground arith
length-front (c ∷ b) s = ground (arith, length-front b s)

first_bytes-length : (b s : Bytes) → first_bytes (length b) (b ++ s) ≡ b
first_bytes-length [] s = refl
first_bytes-length (c ∷ b) s = ap (λ (x : Bytes). c ∷ x) (first_bytes-length b s)

bytes_from-length : (b s : Bytes) → bytes_from (length b) (b ++ s) ≡ s
bytes_from-length [] s = refl
bytes_from-length (c ∷ b) s = bytes_from-length b s

length_header : ℕ → Bytes
length_header n = codes "Content-Length: " ++ decimal n

length_header-IsVisible : (n : ℕ) → is_visible (length_header n) ≡ true
unfolding is_visible length_header
length_header-IsVisible n = is_visible-digits (decimal n) (all_digits-digits_of (suc n) n)

write_frame-append :
    (b s : Bytes) → write_frame b ++ s ≡ length_header (length b) ++ 13 ∷ 10 ∷ 13 ∷ 10 ∷ (b ++ s)
unfolding write_frame length_header
write_frame-append b s =
    append_assoc (codes "Content-Length: " ++ decimal (length b)) (13 ∷ 10 ∷ 13 ∷ 10 ∷ b) s

framed-length_header :
    (n : ℕ) (s : Bytes) → framed (length_header n ++ 13 ∷ 10 ∷ 13 ∷ 10 ∷ []) s ≡ read_body (pos n) s
framed-length_header n s =
    unfold length_header in
    ap (λ (x : List Bytes). read_body (content_length x) s)
      (header_lines-visible (length_header n) (13 ∷ 10 ∷ []) (length_header-IsVisible n))
    ∙ ap (λ (x : ℤ). read_body x s) (content_length-decimal n (header_lines (13 ∷ 10 ∷ [])))

-- `readFrame` reads back the body that `writeFrame` wrote, and leaves what stands behind the frame.
pub read_frame-write_frame : (b s : Bytes) → read_frame (write_frame b ++ s) ≡ (some b, s)
unfolding read_frame
read_frame-write_frame b s =
    rw
      (
        write_frame-append b s,
        read_header-visible (length_header (length b)) [] (b ++ s)
            (length_header-IsVisible (length b)) refl,
        framed-length_header (length b) (b ++ s),
        length-front b s,
        first_bytes-length b s,
        bytes_from-length b s,
      )
      refl
