-- ===== src/Mir/Candidates.antt =====
-- The candidate for a block's dominator in `dominators` of compiler/src/mir/mir.cpp is an ancestor of
-- each predecessor that counts.
use hphl.Base.{
  ℕ, zero, suc, ◌+◌, ◌≤◌, Bool, false, ◌||◌, Option, none, some, List, [], ◌∷◌, ltb, ◌==◌,
  if◌then◌else◌, ◌≡◌, refl, sym, ◌∙◌, Bool-cases, Option-cases, inl, inr, arith,
}
use mathlib.Core.Path.{subst}
use mathlib.Core.Bool.{true≢false}
use mathlib.Core.Option.{some-injective, none-ne-some}
use hphl.Mir.Cfg.{tally}
use hphl.Mir.Dominators.{
  Idoms, idom_at, climb, meet, is_none, take_pred, take_preds, Ancestor, here, above,
}

module _ (t : Idoms) where
  pub Ancestor-trans : {a b c : ℕ} → Ancestor t a b → Ancestor t b c → Ancestor t a c
  Ancestor-trans p here = p
  Ancestor-trans p (above e q) = above e (Ancestor-trans p q)

  -- What is above one step of the climb is above the two blocks.
  climb-Ancestor :
      (f g h i c : ℕ)
      → climb t f g ≡ some (h, i)
      → Ancestor t c h
      → Ancestor t c i
      → Ancestor t c f × Ancestor t c g
  unfolding climb
  climb-Ancestor f g h i c e p q = elim (Bool-cases (ltb g f)) [
    | inl l ↦ elim (Option-cases (idom_at t f)) [
      | inl m ↦ let k : climb t f g ≡ none = rw (l, m) refl in absurd (none-ne-some _ (sym k ∙ e))
      | inr (x, m) ↦
          let k : climb t f g ≡ some (x, g) = rw (l, m) refl in
          let r = some-injective _ _ (sym k ∙ e) in
          (
            above m (subst (λ (y : ℕ × ℕ). Ancestor t c y.0) (sym r) p),
            subst (λ (y : ℕ × ℕ). Ancestor t c y.1) (sym r) q,
          )
    ]
    | inr l ↦ elim (Option-cases (idom_at t g)) [
      | inl m ↦ let k : climb t f g ≡ none = rw (l, m) refl in absurd (none-ne-some _ (sym k ∙ e))
      | inr (x, m) ↦
          let k : climb t f g ≡ some (f, x) = rw (l, m) refl in
          let r = some-injective _ _ (sym k ∙ e) in
          (
            subst (λ (y : ℕ × ℕ). Ancestor t c y.0) (sym r) p,
            above m (subst (λ (y : ℕ × ℕ). Ancestor t c y.1) (sym r) q),
          )
    ]
  ]

  meet-Ancestor : (k f g c : ℕ) → meet k t f g ≡ some c → Ancestor t c f × Ancestor t c g
  unfolding meet
  meet-Ancestor zero f g c e = absurd (none-ne-some _ e)
  meet-Ancestor (suc k) f g c e = elim (Bool-cases (f == g)) [
    | inl s ↦
        let m : meet (suc k) t f g ≡ some f = rw s refl in
        let r : f ≡ c = some-injective _ _ (sym m ∙ e) in
        let q : g ≡ c = ground (arith, s, r) in
        (
          subst (λ (x : ℕ). Ancestor t c x) (sym r) here,
          subst (λ (x : ℕ). Ancestor t c x) (sym q) here,
        )
    | inr s ↦ elim (Option-cases (climb t f g)) [
      | inl n ↦
          let m : meet (suc k) t f g ≡ none = rw (s, n) refl in absurd (none-ne-some _ (sym m ∙ e))
      | inr ((h, i), n) ↦
          let m : meet (suc k) t f g ≡ meet k t h i = rw (s, n) refl in
          let (p, q) = meet-Ancestor k h i c (sym m ∙ e) in climb-Ancestor f g h i c n p q
    ]
  ]

  -- A predecessor that counts: one with a dominator, which is not the block itself.
  abbrev pub Counts : ℕ → ℕ → Type 0
  Counts b p = (is_none (idom_at t p) || p == b) ≡ false

  abbrev pub Over : Option ℕ → ℕ → Type 0
  Over r p = (c : ℕ) × (r ≡ some c) × Ancestor t c p

  module _ (steps : ℕ) where
    -- The candidate after a predecessor is above the one before, and above the predecessor.
    take_pred-Over :
        (b q : ℕ) (cand r : Option ℕ)
        → take_pred steps t b cand q ≡ some r
        → ((p : ℕ) → cand ≡ some p → Over r p) × (Counts b q → Over r q)
    unfolding take_pred
    take_pred-Over b q none r e = elim (Bool-cases (is_none (idom_at t q) || q == b)) [
      | inl s ↦
          let m : take_pred steps t b none q ≡ some none = rw s refl in
          let k = some-injective _ _ (sym m ∙ e) in
          (λ p h. absurd (none-ne-some _ h), λ h. absurd (true≢false (sym s ∙ h)))
      | inr s ↦
          let m : take_pred steps t b none q ≡ some (some q) = rw s refl in
          (λ p h. absurd (none-ne-some _ h), λ h. (q, sym (some-injective _ _ (sym m ∙ e)), here))
    ]
    take_pred-Over b q (some c) r e = elim (Bool-cases (is_none (idom_at t q) || q == b)) [
      | inl s ↦
          let m : take_pred steps t b (some c) q ≡ some (some c) = rw s refl in
          let k = some-injective _ _ (sym m ∙ e) in
          (λ p h. (p, sym k ∙ h, here), λ h. absurd (true≢false (sym s ∙ h)))
      | inr s ↦ elim (Option-cases (meet steps t q c)) [
        | inl n ↦
            let m : take_pred steps t b (some c) q ≡ none = rw (s, n) refl in
            absurd (none-ne-some _ (sym m ∙ e))
        | inr (d, n) ↦
            let m : take_pred steps t b (some c) q ≡ some (some d) = rw (s, n) refl in
            let k = sym (some-injective _ _ (sym m ∙ e)) in
            let (x, y) = meet-Ancestor steps q c d n in
            (
              λ p h. (d, k, subst (λ (z : ℕ). Ancestor t d z) (some-injective _ _ h) y),
              λ h. (d, k, x),
            )
      ]
    ]

    pub take_preds-Over :
        (b : ℕ) (cand : Option ℕ) (ps : List ℕ) (r : Option ℕ)
        → take_preds steps t b cand ps ≡ some r
        → ((p : ℕ) → cand ≡ some p → Over r p) × ((p : ℕ) → 1 ≤ tally p ps → Counts b p → Over r p)
    unfolding take_preds tally
    take_preds-Over b cand [] r e =
        let k = some-injective _ _ e in
        (λ p h. (p, sym k ∙ h, here), λ p h k'. absurd (omega (arith, h)))
    take_preds-Over b cand (q ∷ ps) r e = elim (Option-cases (take_pred steps t b cand q)) [
      | inl n ↦
          let m : take_preds steps t b cand (q ∷ ps) ≡ none = rw (n, take_preds) refl in
          absurd (none-ne-some _ (sym m ∙ e))
      | inr (c, n) ↦
          let m : take_preds steps t b cand (q ∷ ps) ≡ take_preds steps t b c ps =
            rw (n, take_preds) refl in
          let (before, after) = take_preds-Over b c ps r (sym m ∙ e) in
          let (old, new) = take_pred-Over b q cand c n in
          let lift : (p : ℕ) → Over c p → Over r p =
            λ p o. let (d, k, x) = o in let (f, l, y) = before d k in (f, l, Ancestor-trans y x) in
          (
            λ p h. lift p (old p h),
            λ p h k. elim (Bool-cases (p == q)) [
              | inl same ↦
                  let i : q ≡ p = ground (arith, same) in
                  lift p
                    (subst (λ (z : ℕ). Over c z) i (new (subst (λ (z : ℕ). Counts b z) (sym i) k)))
              | inr other ↦
                  after p
                    (omega
                      (arith, subst (λ (z : Bool). 1 ≤ (if z then 1 else 0) + tally p ps) other h))
                    k
            ],
          )
    ]
