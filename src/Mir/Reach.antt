-- ===== src/Mir/Reach.antt =====
-- `loweringToMir` and `buildCFG` of compiler/src/mir/mir.cpp together: every jump at the end of a block
-- of a lowered function becomes an edge of its graph.
use hphl.Base.{
  ℕ, zero, suc, ◌≤◌, Bool, true, ◌||◌, Option, some, List, [], ◌∷◌, ◌++◌, get_elem?, ◌≡◌, refl, sym,
  ◌∙◌, Bool-cases, Option-cases, inl, inr, arith, String,
}
use mathlib.Core.Path.{subst}
use mathlib.Core.Option.{some-injective, none-ne-some}
use hphl.Hir.{HirFunction}
use hphl.Json.{Bytes, same_bytes}
use hphl.Json.Members.{same_bytes_sound}
use hphl.Mir.{
  MirInst, MirBlock, MirFunction, targets_of, inst_targets, block_targets, block_labels, listed,
}
use hphl.Mir.Stmts.{lowering_to_mir}
use hphl.Mir.Labels.{listed-append}
use hphl.Mir.Closed.{lowering_to_mir-targets}
use hphl.Mir.Cfg.{index_of, jumps_of, build_cfg, row, tally}
use hphl.Mir.Mirror.{build_cfg-mirror, index_of-Names}
use hphl.Mir.Edges.{jumps_to, build_cfg-succs}

listed-left : (t : Bytes) (xs ys : List Bytes) → listed t xs ≡ true → listed t (xs ++ ys) ≡ true
listed-left t xs ys h = rw (listed-append t xs ys, h) refl

listed-right : (t : Bytes) (xs ys : List Bytes) → listed t ys ≡ true → listed t (xs ++ ys) ≡ true
listed-right t xs ys h = rw (listed-append t xs ys, h) (ground arith)

jumps_of-targets :
    (t : Bytes) (is : List MirInst)
    → listed t (jumps_of is) ≡ true
    → listed t (inst_targets is) ≡ true
unfolding inst_targets listed
jumps_of-targets t [] h = h
jumps_of-targets t (i ∷ []) h = listed-left t (targets_of i) [] h
jumps_of-targets t (i ∷ j ∷ is) h =
    listed-right t (targets_of i) (inst_targets (j ∷ is)) (jumps_of-targets t (j ∷ is) h)

stands-targets :
    (t : Bytes) (bs : List MirBlock) (k : ℕ) (b : MirBlock)
    → get_elem? bs k ≡ some b
    → listed t (inst_targets b.insts) ≡ true
    → listed t (block_targets bs) ≡ true
unfolding block_targets
stands-targets t [] k b h l = absurd (none-ne-some _ h)
stands-targets t (c ∷ bs) zero b h l =
    listed-left t (inst_targets c.insts) (block_targets bs) (rw (some-injective _ _ h) l)
stands-targets t (c ∷ bs) (suc k) b h l =
    listed-right t (inst_targets c.insts) (block_targets bs) (stands-targets t bs k b h l)

index_of-listed :
    (i : ℕ) (bs : List MirBlock) (t : Bytes)
    → listed t (block_labels bs) ≡ true
    → (j : ℕ) × (index_of i bs t ≡ some j)
unfolding index_of block_labels listed
index_of-listed i [] t h = cc
index_of-listed i (b ∷ bs) t h = elim (Option-cases (index_of (suc i) bs t)) [
  | inl e ↦ elim (Bool-cases (same_bytes t b.label)) [
    | inl k ↦ (i, rw (e, k) refl)
    | inr k ↦
        let (j, found) =
          index_of-listed (suc i) bs t
            (subst (λ (c : Bool). (c || listed t (block_labels bs)) ≡ true) k h) in
        absurd (none-ne-some _ (sym e ∙ found))
  ]
  | inr (j, e) ↦ (j, rw e refl)
]

jumps_to-listed :
    (find : Bytes → Option ℕ) (j : ℕ) (t : Bytes) (ls : List Bytes)
    → find t ≡ some j
    → listed t ls ≡ true
    → 1 ≤ jumps_to find j ls
unfolding jumps_to listed
jumps_to-listed find j t [] e h = cc
jumps_to-listed find j t (l ∷ ls) e h = elim (Bool-cases (same_bytes t l)) [
  | inl k ↦ rw (← same_bytes_sound t l k, e) (ground arith)
  | inr k ↦
      let rest = subst (λ (c : Bool). (c || listed t ls) ≡ true) k h in
      omega (arith, jumps_to-listed find j t ls e rest)
]

-- A block with the label `t` to which an edge goes from block `i`.
pub record Lands (bs : List MirBlock) (i : ℕ) (t : Bytes) : Type 0 where
  number : ℕ
  target : MirBlock
  stands : get_elem? bs number ≡ some target
  labelled : target.label ≡ t
  forward : 1 ≤ tally number (row (build_cfg bs).succs i)
  backward : 1 ≤ tally i (row (build_cfg bs).preds number)

module _ (decl_name decl_owner : ℕ → String) (print : ℕ → Bytes) where
  -- In a lowered function, each label that the end of a block jumps to is that of a block which is a
  -- successor of the first and has it among its predecessors.
  pub lowering_to_mir-Lands :
      (fs : List HirFunction) (i : ℕ) (f : MirFunction) (k : ℕ) (b : MirBlock) (t : Bytes)
      → get_elem? (lowering_to_mir decl_name decl_owner print fs) i ≡ some f
      → get_elem? f.blocks k ≡ some b
      → listed t (jumps_of b.insts) ≡ true
      → Lands f.blocks k t
  lowering_to_mir-Lands fs i f k b t h p l =
      let named =
        lowering_to_mir-targets decl_name decl_owner print fs i f t h
          (stands-targets t f.blocks k b p (jumps_of-targets t b.insts l)) in
      let (j, found) = index_of-listed 0 f.blocks t named in
      let r = index_of-Names 0 f.blocks t j found in
      let same : r.place ≡ j = omega (arith, r.number) in
      let edge : 1 ≤ tally j (row (build_cfg f.blocks).succs k) = omega (
        arith,
        build_cfg-succs f.blocks k j b p,
        jumps_to-listed (index_of 0 f.blocks) j t (jumps_of b.insts) found l,
      ) in
      record {
        number = j;
        target = r.target;
        stands = subst (λ (x : ℕ). get_elem? f.blocks x ≡ some r.target) same r.stands;
        labelled = sym (same_bytes_sound t r.target.label r.labelled);
        forward = edge;
        backward = omega (arith, edge, build_cfg-mirror f.blocks k j);
      }
