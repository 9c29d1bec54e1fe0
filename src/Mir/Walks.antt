-- ===== src/Mir/Walks.antt =====
-- The result of `dominators` in compiler/src/mir/mir.cpp: the ancestors of a block in the tree dominate
-- it, so that each walk to the block visits them.
use hphl.Base.{
  ℕ, zero, suc, ◌+◌, ◌≤◌, ◌<◌, Bool, true, false, Option, none, some, List, [], ◌∷◌, length, ◌==◌,
  ◌≡◌, refl, sym, ap, ◌∙◌, ◌⊎◌, Bool-cases, Option-cases, inl, inr, arith,
}
use mathlib.Core.Path.{subst}
use mathlib.Core.Option.{some-injective, none-ne-some}
use hphl.Mir.Cfg.{Cfg, row, tally}
use hphl.Mir.Dominators.{
  Idoms, idom_at, set_at, is_none, take_preds, is_same, settle, pass, rest_of, rounds, no_idoms,
  dominators, Ancestor, here, above, Walk, start, step,
}
use hphl.Mir.Candidates.{Ancestor-trans, Counts}
use hphl.Mir.Passes.{IsFixed, AllFixed, pass-AllFixed}

set_at_root : (t : Idoms) (b u : ℕ) → idom_at (set_at (suc b) u t) 0 ≡ idom_at t 0
unfolding idom_at set_at
set_at_root [] b u = refl
set_at_root (o ∷ t) b u = refl

settle_root :
    (t : Idoms) (ch : Bool) (b : ℕ) (c : Option ℕ)
    → idom_at (settle t ch (suc b) c).0 0 ≡ idom_at t 0
unfolding settle
settle_root t ch b none = refl
settle_root t ch b (some c) = elim (Bool-cases (is_same (idom_at t (suc b)) c)) [
  | inl e ↦ rw e refl
  | inr e ↦ rw e (set_at_root t b c)
]

pass_root :
    (steps : ℕ) (rows : List (List ℕ)) (b : ℕ) (t t' : Idoms) (ch ch' : Bool)
    → pass steps rows (suc b) t ch ≡ some (t', ch')
    → idom_at t' 0 ≡ idom_at t 0
unfolding pass
pass_root steps [] b t t' ch ch' e =
    ap (λ (x : Idoms × Bool). idom_at x.0 0) (sym (some-injective _ _ e))
pass_root steps (ps ∷ rows) b t t' ch ch' e =
    elim (Option-cases (take_preds steps t (suc b) none ps)) [
      | inl n ↦
          let m : pass steps (ps ∷ rows) (suc b) t ch ≡ none = rw (n, pass) refl in
          absurd (none-ne-some _ (sym m ∙ e))
      | inr (c, n) ↦
          let u = settle t ch (suc b) c in
          let m : pass steps (ps ∷ rows) (suc b) t ch ≡ pass steps rows (suc (suc b)) u.0 u.1 =
            rw (n, pass) refl in
          pass_root steps rows (suc b) u.0 t' u.1 ch' (sym m ∙ e) ∙ settle_root t ch b c
    ]

pub rounds-AllFixed :
    (steps : ℕ) (k : ℕ) (cfg : Cfg) (t t' : Idoms)
    → rounds steps k cfg t ≡ some t'
    → AllFixed (rest_of cfg.preds) 1 t' × (idom_at t' 0 ≡ idom_at t 0)
unfolding rounds
rounds-AllFixed steps zero cfg t t' e = absurd (none-ne-some _ e)
rounds-AllFixed steps (suc k) cfg t t' e =
    elim (Option-cases (pass steps (rest_of cfg.preds) 1 t false)) [
      | inl n ↦
          let m : rounds steps (suc k) cfg t ≡ none = rw (n, rounds) refl in
          absurd (none-ne-some _ (sym m ∙ e))
      | inr ((u, true), n) ↦
          let m : rounds steps (suc k) cfg t ≡ rounds steps k cfg u = rw (n, rounds) refl in
          let (p, q) = rounds-AllFixed steps k cfg u t' (sym m ∙ e) in
          (p, q ∙ pass_root steps (rest_of cfg.preds) 0 t u false true n)
      | inr ((u, false), n) ↦
          let m : rounds steps (suc k) cfg t ≡ some u = rw (n, rounds) refl in
          let r : u ≡ t' = some-injective _ _ (sym m ∙ e) in
          let (same, fixed) = pass-AllFixed steps (rest_of cfg.preds) 1 t u n in
          (
            subst (λ (x : Idoms). AllFixed (rest_of cfg.preds) 1 x) (same ∙ r) fixed,
            ap (λ (x : Idoms). idom_at x 0) (sym (same ∙ r)),
          )
    ]

pub row-rest_of : (rows : List (List ℕ)) (i : ℕ) → row rows (suc i) ≡ row (rest_of rows) i
unfolding row
row-rest_of [] i = refl
row-rest_of (r ∷ rows) i = refl

module _ (cfg : Cfg) (t : Idoms) (fixed : AllFixed (rest_of cfg.preds) 1 t)
    (root : idom_at t 0 ≡ some 0) where
  at_root : {a v : ℕ} → Ancestor t a v → v ≡ 0 → a ≡ 0
  at_root here e = e
  at_root (above {v} {u} d p) e =
      at_root p (some-injective _ _ (sym d ∙ subst (λ (x : ℕ). idom_at t x ≡ some 0) (sym e) root))

  split_up : {a v c : ℕ} → Ancestor t a v → idom_at t v ≡ some c → (a ≡ v) ⊎ Ancestor t a c
  split_up here d = inl refl
  split_up {a} (above e p) d =
      inr (subst (λ (x : ℕ). Ancestor t a x) (some-injective _ _ (sym e ∙ d)) p)

  pub record Visited (vs : List ℕ) (v : ℕ) : Type 0 where
    pub known : is_none (idom_at t v) ≡ false
    begins : 1 ≤ tally 0 vs
    visits : (a : ℕ) → Ancestor t a v → 1 ≤ tally a vs

  IsFixed-succ : (v : ℕ) → IsFixed t (suc v) (row cfg.preds (suc v))
  unfolding AllFixed
  IsFixed-succ v =
      let e : 1 + v ≡ suc v = omega arith in
      subst (λ (x : ℕ). IsFixed t x (row cfg.preds (suc v))) e
        (subst (λ (r : List ℕ). IsFixed t (1 + v) r) (sym (row-rest_of cfg.preds v)) (fixed v))

  step-Visited :
      (vs : List ℕ) (p v : ℕ) → 1 ≤ tally p (row cfg.preds v) → Visited vs p → Visited (v ∷ vs) v
  unfolding tally
  step-Visited vs p zero h w = record {
    known = rw root refl;
    begins = omega (arith, w.begins);
    visits = λ a q. let e : a ≡ 0 = at_root q refl in rw e (ground (arith, w.begins));
  }
  step-Visited vs p (suc v) h w = elim (Bool-cases (p == suc v)) [
    | inl same ↦
        let e : p ≡ suc v = ground (arith, same) in
        record {
          known = subst (λ (x : ℕ). is_none (idom_at t x) ≡ false) e w.known;
          begins = ground (arith, w.begins);
          visits = λ a q.
              let k = w.visits a (subst (λ (x : ℕ). Ancestor t a x) (sym e) q) in ground (arith, k);
        }
    | inr other ↦
        let counts : Counts t (suc v) p = rw (w.known, other) refl in
        let (c, d, x) = IsFixed-succ v p h counts in
        record {
          known = rw d refl;
          begins = ground (arith, w.begins);
          visits = λ a q. elim (split_up q d) [
            | inl e ↦ rw e (ground arith)
            | inr y ↦ let k = w.visits a (Ancestor-trans t y x) in ground (arith, k)
          ];
        }
  ]

  pub Walk-Visited : {vs : List ℕ} {v : ℕ} → Walk cfg vs v → Visited vs v
  unfolding tally
  Walk-Visited (start h) = record {
    known = rw root refl;
    begins = ground arith;
    visits = λ a q. let e : a ≡ 0 = at_root q refl in rw e (ground arith);
  }
  Walk-Visited (step {vs} {p} v w h) = step-Visited vs p v h (Walk-Visited w)

pub starts_at_root :
    (rows : List (List ℕ)) → 0 < length rows → idom_at (set_at 0 0 (no_idoms rows)) 0 ≡ some 0
unfolding idom_at set_at no_idoms
starts_at_root [] h = absurd (omega (arith, h))
starts_at_root (r ∷ rows) h = refl

pub Walk-preds : {cfg : Cfg} {vs : List ℕ} {v : ℕ} → Walk cfg vs v → 0 < length cfg.preds
Walk-preds (start h) = h
Walk-preds (step v w h) = Walk-preds w

-- When `dominators` has returned, each ancestor of a block in its tree stands on each walk from block
-- 0 to that block.
pub dominators-Walk :
    (k : ℕ) (cfg : Cfg) (t : Idoms) (vs : List ℕ) (v a : ℕ)
    → dominators k cfg ≡ some t
    → Walk cfg vs v
    → Ancestor t a v
    → 1 ≤ tally a vs
unfolding dominators
dominators-Walk k cfg t vs v a e w q =
    let (fixed, r) = rounds-AllFixed k k cfg (set_at 0 0 (no_idoms cfg.preds)) t e in
    let root = r ∙ starts_at_root cfg.preds (Walk-preds w) in
    (Walk-Visited cfg t fixed root w).visits a q
