-- ===== src/Lsp/Joined.antt =====
-- `lineAt` of compiler/src/lsp/utf16.inc on a text that is made of lines.
use hphl.Base.{
  ℕ, zero, suc, Bool, true, not, ◌&&◌, some, List, [], ◌∷◌, ◌++◌, get_elem?, ◌==◌, ◌≡◌, refl, ap,
  ◌∙◌, and_left, and_right,
}
use mathlib.Core.Option.{some-injective, none-ne-some}
use hphl.Json.{Bytes}
use hphl.Json.Fresh.{false_of_not}
use hphl.Lsp.Lines.{until_newline, after_newline, without_cr, line_at}

unfoldable pub one_line : Bytes → Bool
one_line [] = true
one_line (c ∷ s) = not (c == 10) && one_line s

unfoldable pub are_lines : List Bytes → Bool
are_lines [] = true
are_lines (l ∷ ls) = one_line l && are_lines ls

-- The lines with a newline between two of them.
unfoldable pub join_lines : List Bytes → Bytes
join_lines [] = []
join_lines (l ∷ []) = l
join_lines (l ∷ m ∷ ls) = l ++ 10 ∷ join_lines (m ∷ ls)

until_newline-one : (l : Bytes) → one_line l ≡ true → until_newline l ≡ l
unfolding until_newline one_line
until_newline-one [] h = refl
until_newline-one (c ∷ l) h =
    rw
      (
        false_of_not (c == 10) (and_left (not (c == 10)) _ h),
        until_newline-one l (and_right (not (c == 10)) _ h),
      )
      refl

until_newline-append : (l rest : Bytes) → one_line l ≡ true → until_newline (l ++ 10 ∷ rest) ≡ l
unfolding until_newline one_line
until_newline-append [] rest h = refl
until_newline-append (c ∷ l) rest h =
    rw
      (
        false_of_not (c == 10) (and_left (not (c == 10)) _ h),
        until_newline-append l rest (and_right (not (c == 10)) _ h),
      )
      refl

after_newline-append :
    (l rest : Bytes) → one_line l ≡ true → after_newline (l ++ 10 ∷ rest) ≡ some rest
unfolding after_newline one_line
after_newline-append [] rest h = refl
after_newline-append (c ∷ l) rest h =
    rw (false_of_not (c == 10) (and_left (not (c == 10)) _ h))
      (after_newline-append l rest (and_right (not (c == 10)) _ h))

-- The line with number `n` of a text is the line that stands there, without a last carriage return.
pub line_at-join_lines :
    (ls : List Bytes) (n : ℕ) (l : Bytes)
    → are_lines ls ≡ true
    → get_elem? ls n ≡ some l
    → line_at (join_lines ls) n ≡ without_cr l
unfolding line_at join_lines are_lines
line_at-join_lines [] n l h e = absurd (none-ne-some _ e)
line_at-join_lines (k ∷ []) zero l h e =
    ap without_cr (until_newline-one k (and_left (one_line k) _ h) ∙ some-injective _ _ e)
line_at-join_lines (k ∷ []) (suc n) l h e = absurd (none-ne-some _ e)
line_at-join_lines (k ∷ m ∷ ls) zero l h e = ap without_cr (
    until_newline-append k (join_lines (m ∷ ls)) (and_left (one_line k) _ h) ∙ some-injective _ _ e)
line_at-join_lines (k ∷ m ∷ ls) (suc n) l h e =
    rw (after_newline-append k (join_lines (m ∷ ls)) (and_left (one_line k) _ h), line_at)
      (line_at-join_lines (m ∷ ls) n l (and_right (one_line k) _ h) e)
