-- ===== src/Mir/Closed.antt =====
-- The blocks that `loweringToMir` of compiler/src/mir/mir.cpp builds for a function: they end in
-- jumps, the jumps go to blocks of the function, and no two blocks have the same label.
use hphl.Base.{
  ℕ, zero, suc, ◌+◌, ◌≤◌, Bool, true, List, [], ◌∷◌, ◌++◌, String, some, get_elem?, ◌==◌,
  if◌then◌else◌, ◌≡◌, refl, sym, ap, ◌∙◌, ◌⊎◌, Bool-cases, inl, inr, arith,
}
use mathlib.Core.Path.{subst}
use mathlib.Core.Option.{some-injective, none-ne-some}
use mathlib.Core.List.{append-nil}
use hphl.Hir.{HirBlock, null_block, body, HirFunction}
use hphl.Json.{Bytes, same_bytes}
use hphl.Mir.{
  MirFunction, inst_targets, block_targets, block_labels, all_terminated, occurs, listed,
}
use hphl.Mir.Lower.{Lower, close_with}
use hphl.Mir.Stmts.{
  ret_with, lower_block, fresh_lower, blocks_of, lower_body, lower_function, lowering_to_mir,
  unless_null,
}
use hphl.Mir.Labels.{
  block_targets-append, block_labels-append, all_terminated-append, starts_b, hits_in, hits, starts,
  opens, below, Extends, joined,
}
use hphl.Mir.Moves.{closed_with, close_with-terminated}
use hphl.Mir.StmtMoves.{exits}
use hphl.Mir.Functions.{lower_block-Extends}

blocks_of-targets :
    (st : Lower) → block_targets (blocks_of st) ≡ block_targets st.done ++ inst_targets st.cur_insts
unfolding block_targets
blocks_of-targets st =
    block_targets-append st.done (record { label = st.cur_label; insts = st.cur_insts } ∷ [])
    ∙ ap (λ (x : List Bytes). block_targets st.done ++ x) (append-nil (inst_targets st.cur_insts))

blocks_of-labels :
    (st : Lower) → block_labels (blocks_of st) ≡ block_labels st.done ++ st.cur_label ∷ []
unfolding block_labels
blocks_of-labels st =
    block_labels-append st.done (record { label = st.cur_label; insts = st.cur_insts } ∷ [])

listed-occurs : (t : Bytes) (xs : List Bytes) → 1 ≤ occurs t xs → listed t xs ≡ true
unfolding occurs listed
listed-occurs t [] h = absurd (omega (arith, h))
listed-occurs t (x ∷ xs) h = elim (Bool-cases (same_bytes t x)) [
  | inl e ↦ rw e refl
  | inr e ↦
      let k : 1 ≤ 0 + occurs t xs =
        subst (λ (c : Bool). 1 ≤ (if c then 1 else 0) + occurs t xs) e h in
      rw e (listed-occurs t xs (omega (arith, k)))
]

unless_null-cases :
    (b : HirBlock) (m : MirFunction) (ms : List MirFunction) (i : ℕ) (f : MirFunction)
    → get_elem? (unless_null b m ms) i ≡ some f
    → (f ≡ m) ⊎ ((j : ℕ) × (get_elem? ms j ≡ some f))
unless_null-cases null_block m ms i f h = inr (i, h)
unless_null-cases (body scope ss) m ms zero f h = inl (sym (some-injective _ _ h))
unless_null-cases (body scope ss) m ms (suc i) f h = inr (i, h)

-- `b0` is not among the numbered labels.
first_label : (t : Bytes) (n : ℕ) → starts t fresh_lower + below t n ≤ 1
unfolding below starts starts_b occurs block_labels same_bytes
first_label [] n = ground arith
first_label (c ∷ s) n = elim (Bool-cases (c == 98)) [
  | inl e ↦ rw e (ground arith)
  | inr e ↦ rw e (ground arith)
]

module _ (decl_name decl_owner : ℕ → String) (print : ℕ → Bytes) where
  abbrev built : HirBlock → Lower
  built b = close_with (ret_with []) (lower_block decl_name decl_owner print b [] fresh_lower)

  built-Extends : (t : Bytes) (b : HirBlock) → Extends t 0 0 fresh_lower (built b)
  unfolding exits hits_in listed
  built-Extends t b =
      joined t (lower_block-Extends t decl_name decl_owner print b [] fresh_lower)
        (closed_with t (ret_with []) _ (omega arith))

  lower_body-terminated :
      (b : HirBlock) → all_terminated (lower_body decl_name decl_owner print b) ≡ true
  unfolding all_terminated opens
  lower_body-terminated b =
      let st = built b in
      let p = (built-Extends [] b).closed in
      let h : all_terminated st.done ≡ true = ground (arith, p) in
      let k =
        close_with-terminated [] (ret_with [])
          (lower_block decl_name decl_owner print b [] fresh_lower) refl in
      all_terminated-append st.done (record { label = st.cur_label; insts = st.cur_insts } ∷ [])
      ∙ (rw (h, k) refl)

  lower_body-targets :
      (b : HirBlock) (t : Bytes)
      → listed t (block_targets (lower_body decl_name decl_owner print b)) ≡ true
      → listed t (block_labels (lower_body decl_name decl_owner print b)) ≡ true
  unfolding hits starts hits_in block_targets inst_targets listed
  lower_body-targets b t h =
      let p = (built-Extends t b).aims in
      let k = sym (ap (listed t) (blocks_of-targets (built b))) ∙ h in
      ap (listed t) (blocks_of-labels (built b))
      ∙ listed-occurs t (block_labels (built b).done ++ (built b).cur_label ∷ []) (
          omega
            (arith, subst (λ (c : Bool). (if c then 1 else 0) ≤ 0 + 0 + starts t (built b)) k p))

  lower_body-labels :
      (b : HirBlock) (t : Bytes)
      → occurs t (block_labels (lower_body decl_name decl_owner print b)) ≤ 1
  unfolding starts
  lower_body-labels b t =
      let p = (built-Extends t b).once in
      rw (blocks_of-labels (built b)) (omega (arith, p, first_label t (built b).block_counter))

  -- A function of the result is the lowering of a body.
  pub lowered :
      (fs : List HirFunction) (i : ℕ) (f : MirFunction)
      → get_elem? (lowering_to_mir decl_name decl_owner print fs) i ≡ some f
      → (b : HirBlock) × (f.blocks ≡ lower_body decl_name decl_owner print b)
  unfolding lowering_to_mir
  lowered [] i f h = absurd (none-ne-some _ h)
  lowered (g ∷ fs) i f h =
      elim (unless_null-cases g.body_block (lower_function decl_name decl_owner print g) _ i f h) [
        | inl e ↦ (g.body_block, ap (λ (m : MirFunction). m.blocks) e)
        | inr (j, k) ↦ lowered fs j f k
      ]

  -- The last instruction of every block of every function is a `Ret`, a `Br` or a `CondBr`.
  pub lowering_to_mir-terminated :
      (fs : List HirFunction) (i : ℕ) (f : MirFunction)
      → get_elem? (lowering_to_mir decl_name decl_owner print fs) i ≡ some f
      → all_terminated f.blocks ≡ true
  lowering_to_mir-terminated fs i f h =
      let (b, e) = lowered fs i f h in rw e (lower_body-terminated b)

  -- A label that a jump of a function names is the label of one of its blocks.
  pub lowering_to_mir-targets :
      (fs : List HirFunction) (i : ℕ) (f : MirFunction) (t : Bytes)
      → get_elem? (lowering_to_mir decl_name decl_owner print fs) i ≡ some f
      → listed t (block_targets f.blocks) ≡ true
      → listed t (block_labels f.blocks) ≡ true
  lowering_to_mir-targets fs i f t h =
      let (b, e) = lowered fs i f h in rw e (lower_body-targets b t)

  -- No two blocks of a function have the same label: none stands twice in the list of its labels.
  pub lowering_to_mir-labels :
      (fs : List HirFunction) (i : ℕ) (f : MirFunction) (t : Bytes)
      → get_elem? (lowering_to_mir decl_name decl_owner print fs) i ≡ some f
      → occurs t (block_labels f.blocks) ≤ 1
  lowering_to_mir-labels fs i f t h = let (b, e) = lowered fs i f h in rw e (lower_body-labels b t)
