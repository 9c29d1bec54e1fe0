-- ===== src/SemVer.antt =====
-- Semantic versions: `SemVer`, `parseSemVer` and `compareSemVer` of
-- compiler/src/loader/pkgfetch.h and pkgfetch.cpp. A string is its bytes. A number that overflows an
-- `int` is undefined in C++ and kept exact here.
pub mod Order
pub mod Resolve
pub mod Chosen
pub mod Ranges
mod Tests
use hphl.Base.{ℕ, ◌-◌, ◌^◌, Bool, true, false, not, ◌&&◌, ltb, ◌==◌, if◌then◌else◌, List, [], ◌∷◌}
use hphl.Json.{Bytes, same_bytes}
use hphl.Json.Number.{is_digit, span_digits, number_of, is_read}

pub record SemVer : Type 0 where
  pub major : ℕ
  pub minor : ℕ
  pub patch : ℕ
  pub pre_release : Bytes
  pub build : Bytes
  pub original : Bytes
  pub valid : Bool

-- `splitInt`: the number at the front, 0 without a digit, and the rest.
abbrev pub split_int : Bytes → ℕ × Bytes
split_int s = (number_of 0 (span_digits s).0, (span_digits s).1)

-- The bytes before the first `+`, and the rest from it on.
unfoldable pub span_plus : Bytes → Bytes × Bytes
span_plus [] = ([], [])
span_plus (c ∷ s) = let (a, b) = span_plus s in if c == 43 then ([], c ∷ s) else (c ∷ a, b)

abbrev pub release : Bytes → ℕ → ℕ → ℕ → Bool → SemVer
release v a b c ok = record {
  major = a;
  minor = b;
  patch = c;
  pre_release = [];
  build = [];
  original = v;
  valid = ok;
}

-- Behind the pre-release: the build, if a `+` follows.
abbrev pub with_build : SemVer → Bytes → SemVer
with_build r [] = r
with_build r (c ∷ s) = if c == 43 then record r { build = s } else r

-- Behind the three numbers.
unfoldable pub with_labels : SemVer → Bytes → SemVer
with_labels r [] = r
with_labels r (c ∷ s) =
    if c == 45
    then with_build (record r { pre_release = (span_plus s).0 }) (span_plus s).1
    else with_build r (c ∷ s)

abbrev pub parse_patch : Bytes → ℕ → ℕ → Bytes → SemVer
parse_patch v a b [] = release v a b 0 false
parse_patch v a b (c ∷ s) =
    if c == 46
    then with_labels (release v a b (split_int s).0 true) (split_int s).1
    else release v a b 0 false

abbrev pub parse_minor : Bytes → ℕ → Bytes → SemVer
parse_minor v a [] = release v a 0 0 false
parse_minor v a (c ∷ s) =
    if c == 46 then parse_patch v a (split_int s).0 (split_int s).1 else release v a 0 0 false

-- `parseSemVer`
unfoldable pub parse_sem_ver : Bytes → SemVer
parse_sem_ver v = parse_minor v (split_int v).0 (split_int v).1

-- The results -1, 0 and 1 of a comparison, and an exception of `std::stoll`.
pub data Sign : Type 0 where
  less equal greater thrown : Sign

-- The identifiers of a pre-release, parted by dots; a dot at the end begins none.
abbrev pub add_first : ℕ → List Bytes → List Bytes
add_first c [] = (c ∷ []) ∷ []
add_first c (x ∷ xs) = (c ∷ x) ∷ xs

unfoldable pub identifiers : Bytes → List Bytes
identifiers [] = []
identifiers (c ∷ s) = let rest = identifiers s in if c == 46 then [] ∷ rest else add_first c rest

unfoldable pub all_digits : Bytes → Bool
all_digits [] = true
all_digits (c ∷ s) = is_digit c && all_digits s

abbrev pub is_number : Bytes → Bool
is_number s = is_read s && all_digits s

abbrev pub order : ℕ → ℕ → Sign
order a b = if ltb a b then less else if ltb b a then greater else equal

abbrev pub first_of : Sign → Sign → Sign
first_of equal k = k
first_of r k = r

-- `<` and `>` on two `std::string`s.
unfoldable pub order_bytes : Bytes → Bytes → Sign
order_bytes [] [] = equal
order_bytes [] (_ ∷ _) = less
order_bytes (_ ∷ _) [] = greater
order_bytes (a ∷ s) (b ∷ t) = first_of (order a b) (order_bytes s t)

-- Two numeric identifiers, by `std::stoll`.
abbrev pub order_numbers : ℕ → ℕ → Sign
order_numbers a b = if ltb a (2 ^ 63) && ltb b (2 ^ 63) then order a b else thrown

abbrev pub order_kinds : Bool → Bool → Sign → Sign → Sign
order_kinds true true numbers bytes = numbers
order_kinds true false numbers bytes = less
order_kinds false true numbers bytes = greater
order_kinds false false numbers bytes = bytes

unfoldable pub order_identifiers : Bytes → Bytes → Sign
order_identifiers a b =
    order_kinds (is_number a) (is_number b) (order_numbers (number_of 0 a) (number_of 0 b))
      (order_bytes a b)

-- The loop of `cmpPreRelId`, an identifier of each side at a time.
unfoldable pub order_lists : List Bytes → List Bytes → Sign
order_lists [] [] = equal
order_lists [] (_ ∷ _) = less
order_lists (_ ∷ _) [] = greater
order_lists (a ∷ as') (b ∷ bs) = first_of (order_identifiers a b) (order_lists as' bs)

-- `cmpPreRelId`
abbrev pub cmp_pre_rel_id : Bytes → Bytes → Sign
cmp_pre_rel_id a b = order_lists (identifiers a) (identifiers b)

-- Two pre-releases: none comes after any.
abbrev pub order_pre_releases : Bytes → Bytes → Sign
order_pre_releases [] [] = equal
order_pre_releases [] (_ ∷ _) = greater
order_pre_releases (_ ∷ _) [] = less
order_pre_releases (c ∷ s) (d ∷ t) = cmp_pre_rel_id (c ∷ s) (d ∷ t)

-- `compareSemVer`
unfoldable pub compare_sem_ver : SemVer → SemVer → Sign
compare_sem_ver a b = first_of (order a.major b.major) (
    first_of (order a.minor b.minor)
      (first_of (order a.patch b.patch) (order_pre_releases a.pre_release b.pre_release)))
