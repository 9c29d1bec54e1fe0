-- ===== src/SemVer/Chosen.antt =====
-- What `resolveVersion` chooses.
use mathlib.Core.Path.{subst}
use mathlib.Core.Option.{some-injective, none-ne-some}
use hphl.Base.{
  ℕ, zero, suc, ◌≡◌, refl, sym, ap, ◌∙◌, Bool, true, false, ◌||◌, if◌then◌else◌, Bool-cases,
  Option-cases, inl, inr, Option, none, some, List, [], ◌∷◌, get_elem?,
}
use hphl.Json.{Bytes}
use hphl.SemVer.{SemVer, Sign, less, equal, greater, thrown, parse_sem_ver, compare_sem_ver}
use hphl.SemVer.Resolve.{
  Best, no_version, best, by_sign, replace, consider, step, bind_best, pick, range_of, wants_latest,
  skip_spaces, span_operator, resolve_version,
}

-- The version stands in the list.
abbrev pub Listed : Bytes → List Bytes → Type 0
Listed v vs = (i : ℕ) × (get_elem? vs i ≡ some v)

-- A choice is a listed version that is valid and in the range.
abbrev pub Chosen : (SemVer → Option Bool) → List Bytes → Best → Type 0
Chosen keep vs no_version = Unit
Chosen keep vs (best v sv) =
    Listed v vs × (sv ≡ parse_sem_ver v) × (sv.valid ≡ true) × (keep sv ≡ some true)

module _ (keep : SemVer → Option Bool) (all : List Bytes) where
  carry : {b r : Best} → some b ≡ some r → Chosen keep all b → Chosen keep all r
  carry {b} {r} e k = subst (Chosen keep all) (some-injective b r e) k

  Chosen-by_sign :
      (c : Sign) (new old r : Best)
      → Chosen keep all new
      → Chosen keep all old
      → by_sign c new old ≡ some r
      → Chosen keep all r
  Chosen-by_sign less new old r h k e = carry e k
  Chosen-by_sign equal new old r h k e = carry e k
  Chosen-by_sign greater new old r h k e = carry e h
  Chosen-by_sign thrown new old r h k e = absurd (none-ne-some r e)

  Chosen-replace :
      (v : Bytes) (sv : SemVer) (b r : Best)
      → Chosen keep all (best v sv)
      → Chosen keep all b
      → replace v sv b ≡ some r
      → Chosen keep all r
  Chosen-replace v sv no_version r h k e = carry e h
  Chosen-replace v sv (best w sw) r h k e =
      Chosen-by_sign (compare_sem_ver sv sw) (best v sv) (best w sw) r h k e

  Chosen-consider :
      (o : Option Bool) (v : Bytes) (sv : SemVer) (b r : Best)
      → (o ≡ some true → Chosen keep all (best v sv))
      → Chosen keep all b
      → consider o v sv b ≡ some r
      → Chosen keep all r
  Chosen-consider none v sv b r h k e = absurd (none-ne-some r e)
  Chosen-consider (some false) v sv b r h k e = carry e k
  Chosen-consider (some true) v sv b r h k e = Chosen-replace v sv b r (h refl) k e

  Chosen-step :
      (v : Bytes) (b r : Best)
      → Listed v all
      → Chosen keep all b
      → step keep v b ≡ some r
      → Chosen keep all r
  unfolding step
  Chosen-step v b r l k e = elim (Bool-cases (parse_sem_ver v).valid) [
    | inl h ↦
        Chosen-consider (keep (parse_sem_ver v)) v (parse_sem_ver v) b r (λ q. (l, refl, h, q)) k
          (sym (
              ap
                (λ (x : Bool).
                  if x then consider (keep (parse_sem_ver v)) v (parse_sem_ver v) b else some b)
                h)
            ∙ e)
    | inr h ↦
        carry
          (sym (
              ap
                (λ (x : Bool).
                  if x then consider (keep (parse_sem_ver v)) v (parse_sem_ver v) b else some b)
                h)
            ∙ e)
          k
  ]

  Chosen-pick :
      (vs : List Bytes) (b r : Best)
      → ((v : Bytes) → Listed v vs → Listed v all)
      → Chosen keep all b
      → pick keep vs b ≡ some r
      → Chosen keep all r
  unfolding pick
  Chosen-pick [] b r sub k e = carry e k
  Chosen-pick (v ∷ vs) b r sub k e =
      let rest = λ (o : Option Best). bind_best o (λ b'. pick keep vs b') in
      elim (Option-cases (step keep v b)) [
        | inl h ↦ absurd (none-ne-some r (sym (ap rest h) ∙ e))
        | inr (b', h) ↦
            Chosen-pick vs b' r (λ w l. sub w (suc l.0, l.1))
              (Chosen-step v b b' (sub v (zero, refl)) k h) (sym (ap rest h) ∙ e)
      ]

-- A version that `resolveVersion` answers, where no comparison throws, is one of the available ones,
-- is valid, and is in the range that the specification asks for.
pub resolve_version-Chosen :
    (spec : Bytes) (available : List Bytes) (r : Best)
    → resolve_version spec available ≡ some r
    → Chosen (range_of spec) available r
unfolding resolve_version
resolve_version-Chosen spec available r e =
    let known = (parse_sem_ver (skip_spaces (span_operator spec).1)).valid in
    let keep = range_of spec in
    let answer = λ (x : Bool). if x then pick keep available no_version else some no_version in
    elim (Bool-cases (wants_latest spec || known)) [
      | inl h ↦
          Chosen-pick keep available available no_version r (λ v l. l) tt (sym (ap answer h) ∙ e)
      | inr h ↦ carry keep available {b = no_version} {r = r} (sym (ap answer h) ∙ e) tt
    ]
