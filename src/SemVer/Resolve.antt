-- ===== src/SemVer/Resolve.antt =====
-- `matchesRange` and `resolveVersion` of compiler/src/loader/pkgfetch.cpp. `none` is an exception of
-- `std::stoll` in a comparison.
use hphl.Base.{
  ℕ, Bool, true, false, not, ◌&&◌, ◌||◌, ◌==◌, if◌then◌else◌, Option, none, some, List, [], ◌∷◌,
}
use hphl.Json.{Bytes, same_bytes}
use hphl.SemVer.{SemVer, Sign, less, equal, greater, thrown, parse_sem_ver, compare_sem_ver}

abbrev pub is_equal : Sign → Bool
is_equal equal = true
is_equal _ = false

abbrev pub is_less : Sign → Bool
is_less less = true
is_less _ = false

abbrev pub is_greater : Sign → Bool
is_greater greater = true
is_greater _ = false

-- The result of a range, by the operator, the two tests of `^` and `~`, and the comparison.
unfoldable pub in_range : Bytes → Bool → Bool → Sign → Bool
in_range op same_major same_minor c =
    if same_bytes op (61 ∷ []) || same_bytes op []
    then is_equal c
    else if same_bytes op (62 ∷ 61 ∷ [])
    then not (is_less c)
    else if same_bytes op (62 ∷ [])
    then is_greater c
    else if same_bytes op (60 ∷ 61 ∷ [])
    then not (is_greater c)
    else if same_bytes op (60 ∷ [])
    then is_less c
    else if same_bytes op (94 ∷ [])
    then same_major && not (is_less c)
    else if same_bytes op (126 ∷ [])
    then same_major && same_minor && not (is_less c)
    else false

abbrev pub unless_thrown : Sign → Bool → Option Bool
unless_thrown thrown b = none
unless_thrown _ b = some b

-- `matchesRange`
unfoldable pub matches_range : SemVer → Bytes → SemVer → Option Bool
matches_range v op target =
    let c = compare_sem_ver v target in
    unless_thrown c (in_range op (v.major == target.major) (v.minor == target.minor) c)

-- `best` and `bestV`.
pub data Best : Type 0 where
  no_version : Best
  best : Bytes → SemVer → Best

abbrev pub by_sign : Sign → Best → Best → Option Best
by_sign greater new old = some new
by_sign thrown new old = none
by_sign _ new old = some old

abbrev pub replace : Bytes → SemVer → Best → Option Best
replace v sv no_version = some (best v sv)
replace v sv (best w sw) = by_sign (compare_sem_ver sv sw) (best v sv) (best w sw)

abbrev pub consider : Option Bool → Bytes → SemVer → Best → Option Best
consider none v sv b = none
consider (some false) v sv b = some b
consider (some true) v sv b = replace v sv b

-- One round of the loop over the available versions; `keep` is the range.
unfoldable pub step : (SemVer → Option Bool) → Bytes → Best → Option Best
step keep v b = let sv = parse_sem_ver v in if sv.valid then consider (keep sv) v sv b else some b

abbrev pub bind_best : Option Best → (Best → Option Best) → Option Best
bind_best none k = none
bind_best (some b) k = k b

unfoldable pub pick : (SemVer → Option Bool) → List Bytes → Best → Option Best
pick keep [] b = some b
pick keep (v ∷ vs) b = bind_best (step keep v b) (λ b'. pick keep vs b')

abbrev pub is_operator : ℕ → Bool
is_operator c = c == 94 || c == 126 || c == 62 || c == 60 || c == 61

unfoldable pub span_operator : Bytes → Bytes × Bytes
span_operator [] = ([], [])
span_operator (c ∷ s) =
    let (op, rest) = span_operator s in if is_operator c then (c ∷ op, rest) else ([], c ∷ s)

unfoldable pub skip_spaces : Bytes → Bytes
skip_spaces [] = []
skip_spaces (c ∷ s) = let rest = skip_spaces s in if c == 32 then rest else c ∷ s

abbrev pub wants_latest : Bytes → Bool
wants_latest spec =
    same_bytes spec []
    || same_bytes spec (42 ∷ [])
    || same_bytes spec (108 ∷ 97 ∷ 116 ∷ 101 ∷ 115 ∷ 116 ∷ [])

-- The range that a specification asks for: every version, or an operator and a version.
abbrev pub range_of : Bytes → SemVer → Option Bool
range_of spec v =
    if wants_latest spec
    then some true
    else matches_range v (span_operator spec).0 (parse_sem_ver (skip_spaces (span_operator spec).1))

-- `resolveVersion`; `no_version` is the empty string.
unfoldable pub resolve_version : Bytes → List Bytes → Option Best
resolve_version spec available =
    if wants_latest spec || (parse_sem_ver (skip_spaces (span_operator spec).1)).valid
    then pick (range_of spec) available no_version
    else some no_version
