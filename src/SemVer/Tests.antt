-- ===== src/SemVer/Tests.antt =====
-- Versions that are parsed, compared and chosen, and concrete uses of the theorems.
use hphl.Base.{◌≡◌, refl, true, some, [], ◌∷◌}
use hphl.Json.{Bytes, same_bytes}
use hphl.Json.Number.{span_digits, number_of}
use hphl.SemVer.{parse_sem_ver, compare_sem_ver, with_labels, span_plus}
use hphl.SemVer.Order.{mirror, mirror-compare_sem_ver}
use hphl.SemVer.Resolve.{
  best, resolve_version, matches_range, range_of, pick, step, span_operator, skip_spaces, in_range,
}
use hphl.SemVer.Chosen.{Chosen, resolve_version-Chosen}
use hphl.SemVer.Ranges.{matches_range-at_least}

-- `1.2.0`, `1.3.0-a`, `2.0.0` and `^1.2.0`
abbrev v120 : Bytes
v120 = 49 ∷ 46 ∷ 50 ∷ 46 ∷ 48 ∷ []

abbrev v130a : Bytes
v130a = 49 ∷ 46 ∷ 51 ∷ 46 ∷ 48 ∷ 45 ∷ 97 ∷ []

abbrev v200 : Bytes
v200 = 50 ∷ 46 ∷ 48 ∷ 46 ∷ 48 ∷ []

abbrev caret : Bytes
caret = 94 ∷ v120

resolve_version-caret :
    resolve_version caret (v120 ∷ v130a ∷ v200 ∷ []) ≡ some (best v130a (parse_sem_ver v130a))
unfolding resolve_version pick step parse_sem_ver compare_sem_ver matches_range in_range
    span_operator skip_spaces same_bytes span_digits number_of with_labels span_plus
resolve_version-caret = refl

-- Two dots alone are taken for a valid version.
parse_sem_ver-dots : (parse_sem_ver (46 ∷ 46 ∷ [])).valid ≡ true
unfolding parse_sem_ver span_digits number_of with_labels
parse_sem_ver-dots = refl

mirror-compare_sem_ver_example :
    compare_sem_ver (parse_sem_ver v130a) (parse_sem_ver v120)
    ≡ mirror (compare_sem_ver (parse_sem_ver v120) (parse_sem_ver v130a))
mirror-compare_sem_ver_example = mirror-compare_sem_ver (parse_sem_ver v130a) (parse_sem_ver v120)

matches_range-at_least_example :
    matches_range (parse_sem_ver v200) (62 ∷ 61 ∷ []) (parse_sem_ver v120)
    ≡ matches_range (parse_sem_ver v120) (60 ∷ 61 ∷ []) (parse_sem_ver v200)
matches_range-at_least_example = matches_range-at_least (parse_sem_ver v200) (parse_sem_ver v120)

resolve_version-Chosen_example :
    Chosen (range_of caret) (v120 ∷ v130a ∷ v200 ∷ []) (best v130a (parse_sem_ver v130a))
resolve_version-Chosen_example =
    resolve_version-Chosen caret (v120 ∷ v130a ∷ v200 ∷ []) (best v130a (parse_sem_ver v130a))
      resolve_version-caret
