-- ===== src/Mir/FirstPass.antt =====
-- The first pass of `dominators` in compiler/src/mir/mir.cpp: each block gets the nearest block above
-- its predecessors that stand before it.
use hphl.Base.{
  ℕ, zero, suc, ◌+◌, ◌≤◌, ◌<◌, Bool, false, Option, none, some, List, [], ◌∷◌, length, ltb, ◌==◌,
  ◌≡◌, refl, sym, ◌∙◌, Bool-cases, inl, inr, arith,
}
use mathlib.Core.Path.{subst}
use mathlib.Core.Option.{none-ne-some}
use hphl.Mir.Cfg.{row, tally}
use hphl.Mir.Dominators.{Idoms, idom_at, take_preds, settle, pass, Ancestor}
use hphl.Mir.Candidates.{Counts, take_preds-Over}
use hphl.Mir.Nearest.{IsTree}
use hphl.Mir.Nearby.{Known, Best, Counts-Known, take_preds-Best}
use hphl.Mir.Settles.{Known-lt, settle-Given, Given-IsTree, Agree, Agree-Ancestor}

-- Block `b`, with the predecessors `ps`, has the nearest block above those before it.
pub record IsPlaced (t : Idoms) (b : ℕ) (ps : List ℕ) : Type 0 where
  pub over :
      (p : ℕ)
      → 1 ≤ tally p ps
      → p < b
      → Known t p
      → (c : ℕ) × (idom_at t b ≡ some c) × Ancestor t c p
  pub nearest :
      (a c : ℕ)
      → ((p : ℕ) → 1 ≤ tally p ps → p < b → Known t p → Ancestor t a p)
      → idom_at t b ≡ some c
      → Ancestor t a c
  pub source : (c : ℕ) → idom_at t b ≡ some c → (p : ℕ) × (1 ≤ tally p ps) × (p < b) × Known t p

pub Known-Counts : (t : Idoms) (b p : ℕ) → (p == b) ≡ false → Known t p → Counts t b p
Known-Counts t b p h (u, e) = rw (e, h) refl

pub record FirstPass (steps : ℕ) (rows : List (List ℕ)) (b : ℕ) (t : Idoms) (ch : Bool)
    : Type 0 where
  pub tree_after : Idoms
  pub changed : Bool
  pub ended : pass steps rows b t ch ≡ some (tree_after, changed)
  pub tree : IsTree tree_after
  pub agree : Agree b t tree_after
  pub size : length tree_after ≡ length t
  pub placed : (i : ℕ) → i < length rows → IsPlaced tree_after (b + i) (row rows i)

Known-lt_fresh :
    (t : Idoms) (b : ℕ) → ((v : ℕ) → b ≤ v → idom_at t v ≡ none) → (p : ℕ) → Known t p → p < b
Known-lt_fresh t b fresh p (u, e) = elim (Bool-cases (ltb p b)) [
  | inl l ↦ ground (arith, l)
  | inr l ↦ absurd (none-ne-some _ (sym (fresh p (ground (arith, l))) ∙ e))
]

IsPlaced-cons :
    (t : Idoms) (b : ℕ) (ps : List ℕ) (rows : List (List ℕ))
    → IsPlaced t b ps
    → ((i : ℕ) → i < length rows → IsPlaced t (suc b + i) (row rows i))
    → (i : ℕ) → i < length (ps ∷ rows)
    → IsPlaced t (b + i) (row (ps ∷ rows) i)
unfolding row
IsPlaced-cons t b ps rows x f zero l =
    let e : b ≡ b + 0 = omega arith in subst (λ (v : ℕ). IsPlaced t v ps) e x
IsPlaced-cons t b ps rows x f (suc i) l =
    let e : suc b + i ≡ b + suc i = omega arith in
    subst (λ (v : ℕ). IsPlaced t v (row rows i)) e (f i (omega (arith, l)))

-- A block that the pass reaches with the tree `t`, that it leaves with `r` as its dominator, and the
-- tree `t'` after the pass.
module _ (steps : ℕ) (t t' : Idoms) (b : ℕ) (ps : List ℕ) (r : Option ℕ) (tree : IsTree t)
    (tree' : IsTree t') (fresh : (v : ℕ) → b ≤ v → idom_at t v ≡ none) (agree : Agree b t t')
    (at : idom_at t' b ≡ r) (taken : take_preds steps t b none ps ≡ some r)
    (best : Best t b none ps r) where
  Known-before : (p : ℕ) → Known t p → p < b
  Known-before p = Known-lt_fresh t b fresh p

  Counts-before : (p : ℕ) → p < b → Known t' p → Counts t b p
  Counts-before p h (u, e) = Known-Counts t b p (ground (arith, h)) (u, sym (agree p h) ∙ e)

  back : Agree b t' t
  back v h = sym (agree v h)

  IsPlaced-at : ((p : ℕ) → Counts t b p → Known t p) → IsPlaced t' b ps
  IsPlaced-at known = record {
    over = λ p m h k.
        let (c, e, x) = (take_preds-Over t steps b none ps r taken).1 p m (Counts-before p h k) in
        (c, at ∙ e, Agree-Ancestor b t t' agree tree h x);
    nearest = λ a c f e.
        let q = best.known c (sym at ∙ e) in
        Agree-Ancestor b t t' agree tree (Known-before c q) (
          best.nearest a c (λ p n. absurd (none-ne-some _ n))
            (λ p j.
              let k = known p j.1 in
              let l = Known-before p k in
              Agree-Ancestor b t' t back tree' l (f p j.0 l (k.0, agree p l ∙ k.1)))
            (sym at ∙ e));
    source = λ c e. elim (best.source c (sym at ∙ e)) [
      | inl (d, n) ↦ absurd (none-ne-some _ n)
      | inr (p, j) ↦
          let k = known p j.1 in let l = Known-before p k in (p, j.0, l, (k.0, agree p l ∙ k.1))
    ];
  }

pub pass-FirstPass :
    (steps : ℕ) (rows : List (List ℕ)) (b : ℕ) (t : Idoms) (ch : Bool)
    → IsTree t
    → 0 < b
    → ((v : ℕ) → b ≤ v → idom_at t v ≡ none)
    → length t ≡ b + length rows
    → length t + length t < steps
    → FirstPass steps rows b t ch
unfolding pass row
pass-FirstPass steps [] b t ch tree h fresh n s = record {
  tree_after = t;
  changed = ch;
  ended = refl;
  tree = tree;
  agree = λ v l. refl;
  size = refl;
  placed = λ i l. absurd (omega (arith, l));
}
pass-FirstPass steps (ps ∷ rows) b t ch tree h fresh n s =
    let small : (v : ℕ) → Known t v → v + v < steps = λ v k. omega (arith, s, Known-lt t v k) in
    let known = Counts-Known steps t tree small b in
    let (r, taken, best) =
      take_preds-Best steps t tree small b none ps (λ c e. absurd (none-ne-some _ e)) in
    let given = settle-Given t ch b r (fresh b (omega arith)) (omega (arith, n)) in
    let u = (settle t ch b r).0 in
    let ch' = (settle t ch b r).1 in
    let before : (c : ℕ) → r ≡ some c → (c < b) × Known t c =
      λ c e. let k = best.known c e in (Known-lt_fresh t b fresh c k, k) in
    let tree' = Given-IsTree t u b r given tree (fresh b (omega arith)) h before in
    let rest =
      pass-FirstPass steps rows (suc b) u ch' tree' (omega arith)
        (λ v l. given.other v (ground (arith, l)) ∙ fresh v (omega (arith, l)))
        (omega (arith, given.size, n)) (omega (arith, given.size, s)) in
    let agree : Agree b t rest.tree_after =
      λ v l. rest.agree v (omega (arith, l)) ∙ given.other v (ground (arith, l)) in
    record {
      tree_after = rest.tree_after;
      changed = rest.changed;
      ended = rw (taken, pass) rest.ended;
      tree = rest.tree;
      agree = agree;
      size = rest.size ∙ given.size;
      placed =
          IsPlaced-cons rest.tree_after b ps rows
            (IsPlaced-at steps t rest.tree_after b ps r tree rest.tree fresh agree
              (rest.agree b (omega arith) ∙ given.at) taken best known)
            rest.placed;
    }
