-- ===== src/Mir/SecondPass.antt =====
-- The second pass of `dominators` in compiler/src/mir/mir.cpp on a graph where an edge back goes to a
-- block that stands on each way forward to its source.
use hphl.Base.{
  ℕ, zero, suc, ◌+◌, ◌≤◌, ◌<◌, Bool, true, false, ◌||◌, Option, none, some, List, [], ◌∷◌, length,
  ltb, ◌==◌, if◌then◌else◌, ◌≡◌, refl, sym, ap, ◌∙◌, Bool-cases, inl, inr, arith,
}
use mathlib.Core.Path.{subst}
use mathlib.Core.Bool.{true≢false}
use mathlib.Core.Option.{some-injective, none-ne-some}
use hphl.Mir.Cfg.{Cfg, row, tally}
use hphl.Mir.Dominators.{
  Idoms, idom_at, is_none, is_same, take_preds, settle, pass, Ancestor, here, above, Walk, start,
  step,
}
use hphl.Mir.Candidates.{Counts, Ancestor-trans, take_preds-Over}
use hphl.Mir.Nearest.{IsTree, Ancestor-le}
use hphl.Mir.Nearby.{Known, Known-Ancestor, Best, Counts-Known, take_preds-Best}
use hphl.Mir.FirstPass.{IsPlaced, Known-Counts}

-- A walk from block 0 along edges to larger numbers.
pub data Rising (cfg : Cfg) : List ℕ → ℕ → Type 0 where
  from_entry : Rising cfg (0 ∷ []) 0
  rise :
      {vs : List ℕ} {p : ℕ} (v : ℕ)
      → Rising cfg vs p
      → 1 ≤ tally p (row cfg.preds v)
      → p < v
      → Rising cfg (v ∷ vs) v

-- Each edge back goes to a block that every rising walk to its source visits.
abbrev pub IsReducible : Cfg → Type 0
IsReducible cfg =
    (b p : ℕ) (vs : List ℕ)
    → b < p
    → 1 ≤ tally p (row cfg.preds b)
    → Rising cfg vs p
    → 1 ≤ tally b vs

pub Rising-Walk :
    {cfg : Cfg} {vs : List ℕ} {v : ℕ} → 0 < length cfg.preds → Rising cfg vs v → Walk cfg vs v
Rising-Walk h from_entry = start h
Rising-Walk h (rise v w e l) = step v (Rising-Walk h w) e

-- The predecessors leave the dominator of the block as it is.
pub record IsStill (steps : ℕ) (t : Idoms) (b : ℕ) (ps : List ℕ) : Type 0 where
  pub candidate : Option ℕ
  pub taken : take_preds steps t b none ps ≡ some candidate
  pub stays : (c : ℕ) → candidate ≡ some c → idom_at t b ≡ some c

settle_still :
    (t : Idoms) (b : ℕ) (r : Option ℕ)
    → ((c : ℕ) → r ≡ some c → idom_at t b ≡ some c)
    → settle t false b r ≡ (t, false)
unfolding settle
settle_still t b none f = refl
settle_still t b (some c) f =
    let e : is_same (idom_at t b) c ≡ true = rw (f c refl, is_same) (ground arith) in rw e refl

pub pass_still :
    (steps : ℕ) (rows : List (List ℕ)) (b : ℕ) (t : Idoms)
    → ((i : ℕ) → i < length rows → IsStill steps t (b + i) (row rows i))
    → pass steps rows b t false ≡ some (t, false)
unfolding pass row
pass_still steps [] b t f = refl
pass_still steps (ps ∷ rows) b t f =
    let zero_th : IsStill steps t b ps =
      let e : b + 0 ≡ b = omega arith in
      subst (λ (v : ℕ). IsStill steps t v ps) e (f 0 (omega arith)) in
    let later = pass_still steps rows (suc b) t (λ i l.
      let e : b + suc i ≡ suc b + i = omega arith in
      subst (λ (v : ℕ). IsStill steps t v (row rows i)) e (f (suc i) (omega (arith, l)))) in
    rw (zero_th.taken, settle_still t b zero_th.candidate zero_th.stays, pass) later

module _ (cfg : Cfg) (t : Idoms) (tree : IsTree t)
    (placed : (v : ℕ) → 0 < v → Known t v → IsPlaced t v (row cfg.preds v)) where
  -- What stands on each rising walk to a block is above it in the tree.
  pub covers :
      (k v b : ℕ)
      → v < k
      → Known t v
      → ((vs : List ℕ) → Rising cfg vs v → 1 ≤ tally b vs)
      → Ancestor t b v
  unfolding tally
  covers zero v b h known f = absurd (omega (arith, h))
  covers (suc k) zero b h known f =
      let e : 0 ≡ b = ground (arith, f (0 ∷ []) from_entry) in
      subst (λ (x : ℕ). Ancestor t x 0) e here
  covers (suc k) (suc v) b h known f = elim (Bool-cases (b == suc v)) [
    | inl e ↦
        let q : suc v ≡ b = ground (arith, e) in subst (λ (x : ℕ). Ancestor t x (suc v)) q here
    | inr e ↦
        let x = placed (suc v) (omega arith) known in
        above known.1 (
          x.nearest b known.0
            (λ p m l j. covers k p b (omega (arith, h, l)) j (λ vs w.
              let s = f (suc v ∷ vs) (rise (suc v) w m l) in
              omega (arith, subst (λ (z : Bool). 1 ≤ (if z then 1 else 0) + tally b vs) e s)))
            known.1)
  ]

  module _ (steps : ℕ) (small : (v : ℕ) → Known t v → v + v < steps) (red : IsReducible cfg) where
    -- The source of an edge back is below the block.
    back_below : (v p : ℕ) → v < p → 1 ≤ tally p (row cfg.preds v) → Known t p → Ancestor t v p
    back_below v p l m k = covers (suc p) p v (omega arith) k (λ vs w. red v p vs l m w)

    not_self : (v p : ℕ) → Counts t v p → (p == v) ≡ false
    not_self v p h = elim (Bool-cases (p == v)) [
      | inl e ↦
          let (u, k) = Counts-Known steps t tree small v p h in
          let m : (is_none (idom_at t p) || p == v) ≡ true = rw (k, e) refl in
          absurd (true≢false (sym m ∙ h))
      | inr e ↦ e
    ]

    source-Known :
        (v p : ℕ)
        → IsPlaced t v (row cfg.preds v)
        → 1 ≤ tally p (row cfg.preds v)
        → Counts t v p
        → Known t v
    source-Known v p x m h =
        let k = Counts-Known steps t tree small v p h in
        elim (Bool-cases (ltb p v)) [
          | inl l ↦ let (c, e, y) = x.over p m (ground (arith, l)) k in (c, e)
          | inr l ↦ Known-Ancestor t tree (back_below v p (ground (arith, l, not_self v p h)) m k) k
        ]

    -- The dominator of a block is above each predecessor that counts.
    above_source :
        (v p d : ℕ)
        → IsPlaced t v (row cfg.preds v)
        → 1 ≤ tally p (row cfg.preds v)
        → Counts t v p
        → idom_at t v ≡ some d
        → Ancestor t d p
    above_source v p d x m h i =
        let k = Counts-Known steps t tree small v p h in
        elim (Bool-cases (ltb p v)) [
          | inl l ↦
              let (c, e, y) = x.over p m (ground (arith, l)) k in
              subst (λ (z : ℕ). Ancestor t z p) (some-injective _ _ (sym e ∙ i)) y
          | inr l ↦
              Ancestor-trans t (above i here)
                (back_below v p (ground (arith, l, not_self v p h)) m k)
        ]

    -- The second pass finds the dominator of the first one.
    same_candidate :
        (v c : ℕ) (r : Option ℕ)
        → IsPlaced t v (row cfg.preds v)
        → take_preds steps t v none (row cfg.preds v) ≡ some r
        → Best t v none (row cfg.preds v) r
        → r ≡ some c
        → idom_at t v ≡ some c
    same_candidate v c r x taken best e = elim (best.source c e) [
      | inl (d, n) ↦ absurd (none-ne-some _ n)
      | inr (p, j) ↦
          let (d, i) = source-Known v p x j.0 j.1 in
          let up : Ancestor t c d =
            x.nearest c d
              (λ q m l k.
                let (f, g, y) =
                  (take_preds-Over t steps v none (row cfg.preds v) r taken).1 q m
                    (Known-Counts t v q (ground (arith, l)) k) in
                subst (λ (z : ℕ). Ancestor t z q) (some-injective _ _ (sym g ∙ e)) y)
              i in
          let down : Ancestor t d c =
            best.nearest d c (λ q n. absurd (none-ne-some _ n))
              (λ q l. above_source v q d x l.0 l.1 i) e in
          let q : d ≡ c = omega (arith, Ancestor-le t tree up, Ancestor-le t tree down) in
          i ∙ ap some q
    ]

    pub IsStill-at : (v : ℕ) → IsPlaced t v (row cfg.preds v) → IsStill steps t v (row cfg.preds v)
    IsStill-at v x =
        let (r, taken, best) =
          take_preds-Best steps t tree small v none (row cfg.preds v)
            (λ c e. absurd (none-ne-some _ e)) in
        record { candidate = r; taken = taken; stays = λ c e. same_candidate v c r x taken best e }
