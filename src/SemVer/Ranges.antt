-- ===== src/SemVer/Ranges.antt =====
-- Ranges from both sides.
use hphl.Base.{◌≡◌, refl, ap, ◌∙◌, not, [], ◌∷◌}
use hphl.Json.{same_bytes}
use hphl.SemVer.{SemVer, Sign, less, equal, greater, thrown, compare_sem_ver}
use hphl.SemVer.Order.{mirror, mirror-compare_sem_ver}
use hphl.SemVer.Resolve.{is_less, is_greater, unless_thrown, in_range, matches_range}

at_least :
    (c : Sign)
    → unless_thrown (mirror c) (not (is_less (mirror c))) ≡ unless_thrown c (not (is_greater c))
at_least less = refl
at_least equal = refl
at_least greater = refl
at_least thrown = refl

-- `v` is in the range `>=t` where `t` is in the range `<=v`.
pub matches_range-at_least :
    (v t : SemVer) → matches_range v (62 ∷ 61 ∷ []) t ≡ matches_range t (60 ∷ 61 ∷ []) v
unfolding matches_range in_range same_bytes
matches_range-at_least v t =
    ap (λ (c : Sign). unless_thrown c (not (is_less c))) (mirror-compare_sem_ver v t)
    ∙ at_least (compare_sem_ver t v)
