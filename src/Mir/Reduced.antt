-- ===== src/Mir/Reduced.antt =====
-- `dominators` of compiler/src/mir/mir.cpp on reducible graphs: its loops end, and what they leave.
use hphl.Base.{
  ℕ, zero, suc, ◌+◌, ◌≤◌, ◌<◌, Bool, true, false, none, some, List, [], ◌∷◌, length, ◌≡◌, refl, sym,
  ap, ◌∙◌, Option-cases, inl, inr, arith,
}
use mathlib.Core.Path.{subst}
use mathlib.Core.Bool.{true≢false}
use mathlib.Core.Option.{some-injective, none-ne-some}
use hphl.Mir.Cfg.{Cfg, row, tally}
use hphl.Mir.Dominators.{
  Idoms, idom_at, set_at, no_idoms, is_none, pass, rest_of, rounds, dominators, Ancestor, Walk,
}
use hphl.Mir.Nearest.{IsTree}
use hphl.Mir.Nearby.{Known}
use hphl.Mir.Settles.{Known-lt}
use hphl.Mir.FirstPass.{IsPlaced, FirstPass, pass-FirstPass}
use hphl.Mir.SecondPass.{Rising, IsReducible, Rising-Walk, IsStill, pass_still, covers, IsStill-at}
use hphl.Mir.Walks.{starts_at_root, Walk-preds, Walk-Visited, rounds-AllFixed, dominators-Walk}

idom_at-no_idoms : (rows : List (List ℕ)) (v : ℕ) → idom_at (no_idoms rows) v ≡ none
unfolding idom_at no_idoms
idom_at-no_idoms [] v = refl
idom_at-no_idoms (ps ∷ rows) zero = refl
idom_at-no_idoms (ps ∷ rows) (suc v) = idom_at-no_idoms rows v

length-no_idoms : (rows : List (List ℕ)) → length (no_idoms rows) ≡ length rows
unfolding no_idoms
length-no_idoms [] = refl
length-no_idoms (ps ∷ rows) = ap suc (length-no_idoms rows)

abbrev entry_tree : List (List ℕ) → Idoms
entry_tree rows = some 0 ∷ no_idoms rows

entry_tree-IsTree : (rows : List (List ℕ)) → IsTree (entry_tree rows)
unfolding idom_at
entry_tree-IsTree rows = record {
  root = refl;
  descends = λ v u e. absurd (none-ne-some _ (sym (idom_at-no_idoms rows v) ∙ e));
  closed = elim [
    | zero ↦ λ u e. (0, ap (idom_at (entry_tree rows)) (sym (some-injective _ _ e)))
    | suc v ↦ λ u e. absurd (none-ne-some _ (sym (idom_at-no_idoms rows v) ∙ e))
  ];
}

entry_tree-fresh : (rows : List (List ℕ)) (v : ℕ) → 1 ≤ v → idom_at (entry_tree rows) v ≡ none
unfolding idom_at
entry_tree-fresh rows zero h = absurd (omega (arith, h))
entry_tree-fresh rows (suc v) h = idom_at-no_idoms rows v

-- The tree `t` says of each block that a walk reaches which blocks all the walks to it visit.
pub record IsDominatorTree (cfg : Cfg) (t : Idoms) : Type 0 where
  pub known : (vs : List ℕ) (v : ℕ) → Walk cfg vs v → Known t v
  pub visited : (vs : List ℕ) (v a : ℕ) → Walk cfg vs v → Ancestor t a v → 1 ≤ tally a vs
  pub complete :
      (ws : List ℕ) (v a : ℕ)
      → Walk cfg ws v
      → ((vs : List ℕ) → Walk cfg vs v → 1 ≤ tally a vs)
      → Ancestor t a v

two_rounds :
    (steps k : ℕ) (cfg : Cfg) (t u : Idoms) (ch : Bool)
    → pass steps (rest_of cfg.preds) 1 t false ≡ some (u, ch)
    → pass steps (rest_of cfg.preds) 1 u false ≡ some (u, false)
    → rounds steps (suc (suc k)) cfg t ≡ some u
unfolding rounds
two_rounds steps k cfg t u true e f = rw (e, rounds) (rw (f, rounds) refl)
two_rounds steps k cfg t u false e f = rw (e, rounds) refl

record Reduced (fuel : ℕ) (cfg : Cfg) : Type 0 where
  result : Idoms
  returned : dominators fuel cfg ≡ some result
  covered :
      (v b : ℕ)
      → Known result v
      → ((vs : List ℕ) → Rising cfg vs v → 1 ≤ tally b vs)
      → Ancestor result b v

abbrev graph : List ℕ → List (List ℕ) → List (List ℕ) → Cfg
graph r rows ss = record { preds = r ∷ rows; succs = ss }

-- A graph with an entry, and the tree that the first pass leaves.
module _ (steps : ℕ) (r : List ℕ) (rows ss : List (List ℕ))
    (first : FirstPass steps rows 1 (entry_tree rows) false)
    (enough : length (r ∷ rows) + length (r ∷ rows) < steps) where
  first-size : length first.tree_after ≡ suc (length rows)
  first-size = first.size ∙ ap suc (length-no_idoms rows)

  first-small : (v : ℕ) → Known first.tree_after v → v + v < steps
  first-small v k = omega (arith, enough, first-size, Known-lt first.tree_after v k)

  first-IsPlaced :
      (v : ℕ) → 0 < v → Known first.tree_after v → IsPlaced first.tree_after v (row (r ∷ rows) v)
  unfolding row
  first-IsPlaced zero h k = absurd (omega (arith, h))
  first-IsPlaced (suc i) h k =
      let e : 1 + i ≡ suc i = omega arith in
      subst (λ (x : ℕ). IsPlaced first.tree_after x (row rows i)) e
        (first.placed i (omega (arith, first-size, Known-lt first.tree_after (suc i) k)))

  second :
      IsReducible (graph r rows ss)
      → pass steps rows 1 first.tree_after false ≡ some (first.tree_after, false)
  unfolding row
  second red = pass_still steps rows 1 first.tree_after (λ i l.
      let e : suc i ≡ 1 + i = omega arith in
      subst (λ (x : ℕ). IsStill steps first.tree_after x (row rows i)) e
        (IsStill-at (graph r rows ss) first.tree_after first.tree first-IsPlaced steps first-small
          red (suc i)
          (let f : 1 + i ≡ suc i = omega arith in
            subst (λ (x : ℕ). IsPlaced first.tree_after x (row rows i)) f (first.placed i l))))

reduced :
    (k : ℕ) (preds ss : List (List ℕ))
    → IsReducible (record { preds = preds; succs = ss })
    → length preds + length preds < k
    → Reduced k (record { preds = preds; succs = ss })
unfolding dominators set_at no_idoms rounds pass
reduced zero preds ss red h = absurd (omega (arith, h))
reduced (suc k) [] ss red h = record {
  result = [];
  returned = refl;
  covered = λ v b n f. absurd (omega (arith, Known-lt [] v n));
}
reduced (suc zero) (r ∷ rows) ss red h = absurd (omega (arith, h))
reduced (suc (suc k)) (r ∷ rows) ss red h =
    let steps = suc (suc k) in
    let first : FirstPass steps rows 1 (entry_tree rows) false =
      pass-FirstPass steps rows 1 (entry_tree rows) false (entry_tree-IsTree rows) (omega arith)
        (entry_tree-fresh rows) (omega (arith, length-no_idoms rows))
        (omega (arith, length-no_idoms rows, h)) in
    record {
      result = first.tree_after;
      returned =
          two_rounds steps k (graph r rows ss) (entry_tree rows) first.tree_after first.changed
            first.ended (second steps r rows ss first h red);
      covered = λ v b n f.
          covers (graph r rows ss) first.tree_after first.tree
            (first-IsPlaced steps r rows ss first h) (suc v) v b (omega arith) n f;
    }

some-Known : (t : Idoms) (v : ℕ) → is_none (idom_at t v) ≡ false → Known t v
some-Known t v h = elim (Option-cases (idom_at t v)) [
  | inl n ↦
      let m : is_none (idom_at t v) ≡ true = rw (n, is_none) refl in absurd (true≢false (sym m ∙ h))
  | inr (u, n) ↦ (u, n)
]

reached :
    (fuel : ℕ) (cfg : Cfg) (t : Idoms) (vs : List ℕ) (v : ℕ)
    → dominators fuel cfg ≡ some t
    → Walk cfg vs v
    → Known t v
unfolding dominators
reached fuel cfg t vs v e w =
    let (fixed, r) = rounds-AllFixed fuel fuel cfg (set_at 0 0 (no_idoms cfg.preds)) t e in
    let root = r ∙ starts_at_root cfg.preds (Walk-preds w) in
    some-Known t v (Walk-Visited cfg t fixed root w).known

-- On a reducible graph, which is one where every edge back goes to a block that each walk along edges
-- to larger numbers visits before the edge's source, `dominators` ends, with more steps and rounds than
-- twice the number of blocks. In its tree each block that a walk from block 0 reaches has a dominator,
-- and its ancestors there are exactly the blocks that all the walks to it visit.
pub dominators-IsDominatorTree :
    (fuel : ℕ) (cfg : Cfg)
    → IsReducible cfg
    → length cfg.preds + length cfg.preds < fuel
    → (t : Idoms) × (dominators fuel cfg ≡ some t) × IsDominatorTree cfg t
dominators-IsDominatorTree fuel cfg red h =
    let x = reduced fuel cfg.preds cfg.succs red h in
    (
      x.result,
      x.returned,
      record {
        known = λ vs v w. reached fuel cfg x.result vs v x.returned w;
        visited = λ vs v a w q. dominators-Walk fuel cfg x.result vs v a x.returned w q;
        complete = λ ws v a w f.
            x.covered v a (reached fuel cfg x.result ws v x.returned w)
              (λ vs u. f vs (Rising-Walk (Walk-preds w) u));
      },
    )
