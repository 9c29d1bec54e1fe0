-- ===== src/SemVer/Order.antt =====
-- `compareSemVer` from both sides.
use hphl.Base.{ℕ, ◌≡◌, refl, ap, ◌∙◌, Bool, true, false, arith, List, [], ◌∷◌}
use hphl.Json.{Bytes}
use hphl.Json.Number.{number_of}
use hphl.SemVer.{
  SemVer, Sign, less, equal, greater, thrown, order, first_of, order_bytes, order_numbers,
  order_kinds, is_number, order_identifiers, order_lists, order_pre_releases, identifiers,
  compare_sem_ver,
}

-- A comparison from the other side.
abbrev pub mirror : Sign → Sign
mirror less = greater
mirror equal = equal
mirror greater = less
mirror thrown = thrown

mirror-order : (a b : ℕ) → order a b ≡ mirror (order b a)
mirror-order a b = ground arith

mirror-order_numbers : (a b : ℕ) → order_numbers a b ≡ mirror (order_numbers b a)
mirror-order_numbers a b = ground arith

mirror-first_of :
    (p q p' q' : Sign) → p ≡ mirror p' → q ≡ mirror q' → first_of p q ≡ mirror (first_of p' q')
mirror-first_of p q less q' h k = ap (λ (x : Sign). first_of x q) h
mirror-first_of p q equal q' h k = ap (λ (x : Sign). first_of x q) h ∙ k
mirror-first_of p q greater q' h k = ap (λ (x : Sign). first_of x q) h
mirror-first_of p q thrown q' h k = ap (λ (x : Sign). first_of x q) h

mirror-order_bytes : (s t : Bytes) → order_bytes s t ≡ mirror (order_bytes t s)
unfolding order_bytes
mirror-order_bytes [] [] = refl
mirror-order_bytes [] (b ∷ t) = refl
mirror-order_bytes (a ∷ s) [] = refl
mirror-order_bytes (a ∷ s) (b ∷ t) =
    mirror-first_of (order a b) (order_bytes s t) (order b a) (order_bytes t s) (mirror-order a b)
      (mirror-order_bytes s t)

mirror-order_kinds :
    (a b : Bool) (p q p' q' : Sign)
    → p ≡ mirror p'
    → q ≡ mirror q'
    → order_kinds a b p q ≡ mirror (order_kinds b a p' q')
mirror-order_kinds true true p q p' q' h k = h
mirror-order_kinds true false p q p' q' h k = refl
mirror-order_kinds false true p q p' q' h k = refl
mirror-order_kinds false false p q p' q' h k = k

mirror-order_identifiers : (a b : Bytes) → order_identifiers a b ≡ mirror (order_identifiers b a)
unfolding order_identifiers
mirror-order_identifiers a b =
    mirror-order_kinds (is_number a) (is_number b) (order_numbers (number_of 0 a) (number_of 0 b))
      (order_bytes a b) (order_numbers (number_of 0 b) (number_of 0 a)) (order_bytes b a)
      (mirror-order_numbers (number_of 0 a) (number_of 0 b)) (mirror-order_bytes a b)

mirror-order_lists : (s t : List Bytes) → order_lists s t ≡ mirror (order_lists t s)
unfolding order_lists
mirror-order_lists [] [] = refl
mirror-order_lists [] (b ∷ t) = refl
mirror-order_lists (a ∷ s) [] = refl
mirror-order_lists (a ∷ s) (b ∷ t) =
    mirror-first_of (order_identifiers a b) (order_lists s t) (order_identifiers b a)
      (order_lists t s) (mirror-order_identifiers a b) (mirror-order_lists s t)

mirror-order_pre_releases : (s t : Bytes) → order_pre_releases s t ≡ mirror (order_pre_releases t s)
mirror-order_pre_releases [] [] = refl
mirror-order_pre_releases [] (b ∷ t) = refl
mirror-order_pre_releases (a ∷ s) [] = refl
mirror-order_pre_releases (a ∷ s) (b ∷ t) =
    mirror-order_lists (identifiers (a ∷ s)) (identifiers (b ∷ t))

-- `compareSemVer(b, a)` is `compareSemVer(a, b)` with less and greater exchanged; one throws where
-- the other does.
pub mirror-compare_sem_ver : (a b : SemVer) → compare_sem_ver a b ≡ mirror (compare_sem_ver b a)
unfolding compare_sem_ver
mirror-compare_sem_ver a b =
    mirror-first_of (order a.major b.major) _ (order b.major a.major) _
      (mirror-order a.major b.major)
      (mirror-first_of (order a.minor b.minor) _ (order b.minor a.minor) _
        (mirror-order a.minor b.minor)
        (mirror-first_of (order a.patch b.patch) _ (order b.patch a.patch) _
          (mirror-order a.patch b.patch) (mirror-order_pre_releases a.pre_release b.pre_release)))
