-- ===== src/Mir/Shape.antt =====
-- `mirToSSA` of compiler/src/mir/mir.cpp keeps the labels of the blocks and the jumps at their ends.
use hphl.Base.{
  ℕ, zero, suc, Bool, true, false, List, [], ◌∷◌, ◌≡◌, refl, sym, ap, ◌∙◌, Bool-cases, inl, inr,
}
use hphl.Base.Int.{ℤ}
use mathlib.Core.Bool.{true≢false}
use hphl.Json.{Bytes}
use hphl.Mir
use hphl.Mir.{codes, no_bytes, MirOp, MirInst, MirBlock, MirFunction, targets_of}
use hphl.Mir.Cfg.{Cfg, jumps_of, row}
use hphl.Mir.Dominators.{Idoms}
use hphl.Mir.Phis.{is_var}
use hphl.Mir.Ssa.{
  Renaming, rename_inst, is_phi, rename_phi, rename_rest, rename_insts, fill_phis, insts_at,
  put_insts, fill_succs, kids_of, go_all, go,
}

-- The label of each block, and the labels that its end goes to.
unfoldable pub shapes : List MirBlock → List (Bytes × List Bytes)
shapes [] = []
shapes (b ∷ bs) = (b.label, jumps_of b.insts) ∷ shapes bs

is_nil : List MirInst → Bool
is_nil [] = true
is_nil (i ∷ is) = false

record SameEnds (is js : List MirInst) : Type 0 where
  nils : is_nil is ≡ is_nil js
  jumps : jumps_of is ≡ jumps_of js

cons-SameEnds :
    (i j : MirInst) (is js : List MirInst)
    → targets_of i ≡ targets_of j
    → SameEnds is js
    → SameEnds (i ∷ is) (j ∷ js)
unfolding is_nil
cons-SameEnds i j [] [] e s = record { nils = refl; jumps = e }
cons-SameEnds i j [] (y ∷ js) e s = absurd (true≢false s.nils)
cons-SameEnds i j (x ∷ is) [] e s = absurd (true≢false (sym s.nils))
cons-SameEnds i j (x ∷ is) (y ∷ js) e s = record { nils = refl; jumps = s.jumps }

-- An instruction is its fields.
targets_kept :
    (o : MirOp) (d a b x : Bytes) (m : ℤ) (xs : List Bytes) (st : Renaming)
    → targets_of
        (rename_inst
          (record { op = o; dst = d; a = a; b = b; text = x; imm_value = m; args = xs })
          st).0
      ≡ targets_of (record { op = o; dst = d; a = a; b = b; text = x; imm_value = m; args = xs })
unfolding rename_inst
targets_kept Mir.ret d a b x m xs st = elim (Bool-cases (no_bytes d)) [
  | inl e ↦ rw e refl
  | inr e ↦ rw e refl
]
targets_kept Mir.call d a b x m xs st = elim (Bool-cases (is_var d)) [
  | inl e ↦ rw e refl
  | inr e ↦ rw e refl
]
targets_kept o d a b x m xs st = refl

rename_rest-SameEnds : (is : List MirInst) (st : Renaming) → SameEnds (rename_rest is st).0 is
unfolding rename_rest
rename_rest-SameEnds [] st = record { nils = refl; jumps = refl }
rename_rest-SameEnds (i ∷ is) st =
    cons-SameEnds (rename_inst i st).0 i _ is
      (targets_kept i.op i.dst i.a i.b i.text i.imm_value i.args st)
      (rename_rest-SameEnds is (rename_inst i st).1)

rename_insts-SameEnds : (is : List MirInst) (st : Renaming) → SameEnds (rename_insts is st).0 is
unfolding rename_insts rename_phi
rename_insts-SameEnds [] st = record { nils = refl; jumps = refl }
rename_insts-SameEnds (i ∷ is) st = elim (Bool-cases (is_phi i)) [
  | inl e ↦
      rw e (
        cons-SameEnds (rename_phi i st).0 i _ is refl
          (rename_insts-SameEnds is (rename_phi i st).1))
  | inr e ↦ rw e (rename_rest-SameEnds (i ∷ is) st)
]

fill_phis-SameEnds : (st : Renaming) (is : List MirInst) → SameEnds (fill_phis st is) is
unfolding fill_phis
fill_phis-SameEnds st [] = record { nils = refl; jumps = refl }
fill_phis-SameEnds st (i ∷ is) = elim (Bool-cases (is_phi i)) [
  | inl e ↦ rw e (cons-SameEnds _ i _ is refl (fill_phis-SameEnds st is))
  | inr e ↦ rw e (record { nils = refl; jumps = refl })
]

shapes-put_insts :
    (u : ℕ) (is : List MirInst) (bs : List MirBlock)
    → jumps_of is ≡ jumps_of (insts_at u bs)
    → shapes (put_insts u is bs) ≡ shapes bs
unfolding shapes put_insts insts_at
shapes-put_insts u is [] e = refl
shapes-put_insts zero is (b ∷ bs) e = ap (λ (x : List Bytes). (b.label, x) ∷ shapes bs) e
shapes-put_insts (suc u) is (b ∷ bs) e =
    ap (λ (x : List (Bytes × List Bytes)). (b.label, jumps_of b.insts) ∷ x)
      (shapes-put_insts u is bs e)

shapes-fill_succs :
    (st : Renaming) (ss : List ℕ) (bs : List MirBlock) → shapes (fill_succs st ss bs) ≡ shapes bs
unfolding fill_succs
shapes-fill_succs st [] bs = refl
shapes-fill_succs st (s ∷ ss) bs =
    shapes-fill_succs st ss (put_insts s (fill_phis st (insts_at s bs)) bs)
    ∙ shapes-put_insts s (fill_phis st (insts_at s bs)) bs
        (fill_phis-SameEnds st (insts_at s bs)).jumps

shapes-go_all :
    (f : ℕ → List MirBlock × Renaming → List MirBlock × Renaming)
    → ((u : ℕ) (st : List MirBlock × Renaming) → shapes (f u st).0 ≡ shapes st.0)
    → (cs : List ℕ) (st : List MirBlock × Renaming) → shapes (go_all f cs st).0 ≡ shapes st.0
unfolding go_all
shapes-go_all f h [] st = refl
shapes-go_all f h (c ∷ cs) st = shapes-go_all f h cs (f c st) ∙ h c st

pub shapes-go :
    (k : ℕ) (cfg : Cfg) (t : Idoms) (u : ℕ) (st : List MirBlock × Renaming)
    → shapes (go k cfg t u st).0 ≡ shapes st.0
unfolding go
shapes-go zero cfg t u st = refl
shapes-go (suc k) cfg t u (bs, names) =
    let r = rename_insts (insts_at u bs) (record names { mine = [] }) in
    shapes-go_all (go k cfg t) (shapes-go k cfg t) (kids_of t u)
      (fill_succs r.1 (row cfg.succs u) (put_insts u r.0 bs), r.1)
    ∙ shapes-fill_succs r.1 (row cfg.succs u) (put_insts u r.0 bs)
    ∙ shapes-put_insts u r.0 bs
        (rename_insts-SameEnds (insts_at u bs) (record names { mine = [] })).jumps
