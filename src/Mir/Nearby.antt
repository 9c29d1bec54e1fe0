-- ===== src/Mir/Nearby.antt =====
-- The candidate for a block's dominator in `dominators` of compiler/src/mir/mir.cpp, in a tree whose
-- blocks stand behind their dominators.
use hphl.Base.{
  ℕ, ◌+◌, ◌≤◌, ◌<◌, true, false, ◌||◌, Option, some, List, [], ◌∷◌, ◌==◌, ◌≡◌, refl, sym, ◌∙◌, ◌⊎◌,
  Bool-cases, Option-cases, inl, inr, arith,
}
use mathlib.Core.Path.{subst}
use mathlib.Core.Bool.{true≢false}
use mathlib.Core.Option.{some-injective}
use hphl.Mir.Cfg.{tally}
use hphl.Mir.Dominators.{Idoms, idom_at, is_none, take_pred, take_preds, Ancestor, here, above}
use hphl.Mir.Candidates.{Counts}
use hphl.Mir.Nearest.{IsTree, meet-NearestCommon}

-- Block `v` has a dominator.
abbrev pub Known : Idoms → ℕ → Type 0
Known t v = (u : ℕ) × (idom_at t v ≡ some u)

abbrev pub Counted : Idoms → ℕ → List ℕ → ℕ → Type 0
Counted t b ps p = (1 ≤ tally p ps) × Counts t b p

-- The candidate `r` after the predecessors `ps`, with `cand` before them, is the nearest block above
-- all of them.
pub record Best (t : Idoms) (b : ℕ) (cand : Option ℕ) (ps : List ℕ) (r : Option ℕ) : Type 0 where
  pub known : (c : ℕ) → r ≡ some c → Known t c
  pub nearest :
      (a c : ℕ)
      → ((p : ℕ) → cand ≡ some p → Ancestor t a p)
      → ((p : ℕ) → Counted t b ps p → Ancestor t a p)
      → r ≡ some c
      → Ancestor t a c
  pub source : (c : ℕ) → r ≡ some c → ((d : ℕ) × (cand ≡ some d)) ⊎ ((p : ℕ) × Counted t b ps p)

pub Known-Ancestor : (t : Idoms) → IsTree t → {a v : ℕ} → Ancestor t a v → Known t v → Known t a
Known-Ancestor t tree here k = k
Known-Ancestor t tree (above {v} {u} e p) k = Known-Ancestor t tree p (tree.closed v u e)

module _ (steps : ℕ) (t : Idoms) (tree : IsTree t)
    (small : (v : ℕ) → Known t v → v + v < steps) where
  pub Counts-Known : (b p : ℕ) → Counts t b p → Known t p
  Counts-Known b p h = elim (Option-cases (idom_at t p)) [
    | inl n ↦
        let k : (is_none (idom_at t p) || p == b) ≡ true = rw (n, is_none) refl in
        absurd (true≢false (sym k ∙ h))
    | inr (u, n) ↦ (u, n)
  ]

  one-Counted : (b q : ℕ) → (is_none (idom_at t q) || q == b) ≡ false → Counted t b (q ∷ []) q
  unfolding tally
  one-Counted b q h = (ground arith, h)

  take_pred-Best :
      (b : ℕ) (cand : Option ℕ) (q : ℕ)
      → ((c : ℕ) → cand ≡ some c → Known t c)
      → (r : Option ℕ) × (take_pred steps t b cand q ≡ some r) × Best t b cand (q ∷ []) r
  unfolding take_pred
  take_pred-Best b cand q k = elim (Bool-cases (is_none (idom_at t q) || q == b)) [
    | inl s ↦ (
      cand,
      rw s refl,
      record { known = k; nearest = λ a c h l e. h c e; source = λ c e. inl (c, e) },
    )
    | inr s ↦ elim (Option-cases cand) [
      | inl n ↦ (
        some q,
        rw (s, n) refl,
        record {
          known = λ c e. subst (λ (x : ℕ). Known t x) (some-injective _ _ e) (Counts-Known b q s);
          nearest = λ a c h l e.
              subst (λ (x : ℕ). Ancestor t a x) (some-injective _ _ e) (l q (one-Counted b q s));
          source = λ c e. inr (q, one-Counted b q s);
        },
      )
      | inr (d, n) ↦
          let (u, x) = Counts-Known b q s in
          let (w, y) = k d n in
          let (m, e, best) =
            meet-NearestCommon t tree steps q d u w (omega (arith, small q (u, x), small d (w, y)))
              x y in
          (
            some m,
            rw (s, n, e) refl,
            record {
              known = λ c i.
                  subst (λ (x : ℕ). Known t x) (some-injective _ _ i)
                    (Known-Ancestor t tree best.of_left (u, x));
              nearest = λ a c h l i.
                  subst (λ (x : ℕ). Ancestor t a x) (some-injective _ _ i)
                    (best.nearest a (l q (one-Counted b q s)) (h d n));
              source = λ c i. inl (d, n);
            },
          )
    ]
  ]

  Best-cons :
      (b q : ℕ) (cand c r : Option ℕ) (ps : List ℕ)
      → Best t b cand (q ∷ []) c
      → Best t b c ps r
      → Best t b cand (q ∷ ps) r
  unfolding tally
  Best-cons b q cand c r ps x y = record {
    known = y.known;
    nearest = λ a d h l e.
        y.nearest a d (λ p i. x.nearest a p h (λ p' j. l p' (omega (arith, j.0), j.1)) i)
          (λ p j. l p (omega (arith, j.0), j.1)) e;
    source = λ d e. elim (y.source d e) [
      | inl (f, i) ↦ elim (x.source f i) [
        | inl o ↦ inl o
        | inr (p, j) ↦ inr (p, (omega (arith, j.0), j.1))
      ]
      | inr (p, j) ↦ inr (p, (omega (arith, j.0), j.1))
    ];
  }

  -- The inner loops of one block end with the best candidate.
  pub take_preds-Best :
      (b : ℕ) (cand : Option ℕ) (ps : List ℕ)
      → ((c : ℕ) → cand ≡ some c → Known t c)
      → (r : Option ℕ) × (take_preds steps t b cand ps ≡ some r) × Best t b cand ps r
  unfolding take_preds
  take_preds-Best b cand [] k =
      (cand, refl, record { known = k; nearest = λ a c h l e. h c e; source = λ c e. inl (c, e) })
  take_preds-Best b cand (q ∷ ps) k =
      let (c, e, x) = take_pred-Best b cand q k in
      let (r, i, y) = take_preds-Best b c ps x.known in
      (r, rw (e, take_preds) i, Best-cons b q cand c r ps x y)
