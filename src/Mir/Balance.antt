-- ===== src/Mir/Balance.antt =====
-- The stacks of versions in `SsaBuilder::run` of compiler/src/mir/mir.cpp: a block takes off what it
-- has put on.
use hphl.Base.{
  ℕ, zero, suc, List, [], ◌∷◌, ◌++◌, if◌then◌else◌, ◌≡◌, refl, sym, ap, ◌∙◌, Bool-cases, inl, inr,
}
use hphl.Base.Int.{ℤ}
use mathlib.Core.Path.{subst}
use hphl.Json.{Bytes, same_bytes}
use hphl.Json.Members.{same_bytes_sound}
use hphl.Mir
use hphl.Mir.{codes, no_bytes, tail_of, MirOp, MirInst, MirBlock}
use hphl.Mir.Cfg.{Cfg, row}
use hphl.Mir.Dominators.{Idoms}
use hphl.Mir.Phis.{is_var}
use hphl.Mir.Ssa.{
  Renaming, versions_of, tail_versions, fresh_at, rename_inst, is_phi, rename_phi, rename_rest,
  rename_insts, insts_at, put_insts, fill_succs, pop_versions, kids_of, go_all, go,
}

-- The versions of `x` that are left when the names of `xs` are taken off.
drop_all : Bytes → List Bytes → List Bytes → List Bytes
drop_all x [] vs = vs
drop_all x (y ∷ ys) vs = drop_all x ys (if same_bytes x y then tail_versions vs else vs)

versions_of-pop_versions :
    (x : Bytes) (xs : List Bytes) (st : Renaming)
    → versions_of x (pop_versions xs st).stack ≡ drop_all x xs (versions_of x st.stack)
unfolding pop_versions drop_all versions_of
versions_of-pop_versions x [] st = refl
versions_of-pop_versions x (y ∷ ys) st =
    versions_of-pop_versions x ys _
    ∙ ap (drop_all x ys) (elim (Bool-cases (same_bytes x y)) [
      | inl e ↦ rw e (
          ap (λ (z : Bytes). tail_versions (versions_of z st.stack)) (sym (same_bytes_sound x y e)))
      | inr e ↦ rw e refl
    ])

module _ (x : Bytes) (vs : List Bytes) where
  -- Without the names of `mine`, the versions are `vs`.
  IsPushed : Renaming → Type 0
  IsPushed st = drop_all x st.mine (versions_of x st.stack) ≡ vs

  fresh_at-IsPushed : (v : Bytes) (st : Renaming) → IsPushed st → IsPushed (fresh_at v st).1
  unfolding IsPushed fresh_at drop_all versions_of
  fresh_at-IsPushed v st h = elim (Bool-cases (same_bytes x (tail_of v))) [
    | inl e ↦ rw e (
        subst (λ (z : Bytes). drop_all x st.mine (versions_of z st.stack) ≡ vs)
          (same_bytes_sound x (tail_of v) e) h)
    | inr e ↦ rw e h
  ]

  -- An instruction is its fields.
  rename_inst-IsPushed :
      (o : MirOp) (d a b y : Bytes) (m : ℤ) (xs : List Bytes) (st : Renaming)
      → IsPushed st
      → IsPushed
          (rename_inst
            (record { op = o; dst = d; a = a; b = b; text = y; imm_value = m; args = xs })
            st).1
  unfolding rename_inst
  rename_inst-IsPushed Mir.store d a b y m xs st h = fresh_at-IsPushed (codes "%" ++ a) st h
  rename_inst-IsPushed Mir.local d a b y m xs st h = fresh_at-IsPushed d st h
  rename_inst-IsPushed Mir.bin d a b y m xs st h = fresh_at-IsPushed d st h
  rename_inst-IsPushed Mir.cmp d a b y m xs st h = fresh_at-IsPushed d st h
  rename_inst-IsPushed Mir.unary d a b y m xs st h = fresh_at-IsPushed d st h
  rename_inst-IsPushed Mir.call d a b y m xs st h = elim (Bool-cases (is_var d)) [
    | inl e ↦ rw e (fresh_at-IsPushed d st h)
    | inr e ↦ rw e h
  ]
  rename_inst-IsPushed o d a b y m xs st h = h

  rename_rest-IsPushed :
      (is : List MirInst) (st : Renaming) → IsPushed st → IsPushed (rename_rest is st).1
  unfolding rename_rest
  rename_rest-IsPushed [] st h = h
  rename_rest-IsPushed (i ∷ is) st h =
      rename_rest-IsPushed is (rename_inst i st).1
        (rename_inst-IsPushed i.op i.dst i.a i.b i.text i.imm_value i.args st h)

  rename_insts-IsPushed :
      (is : List MirInst) (st : Renaming) → IsPushed st → IsPushed (rename_insts is st).1
  unfolding rename_insts rename_phi
  rename_insts-IsPushed [] st h = h
  rename_insts-IsPushed (i ∷ is) st h = elim (Bool-cases (is_phi i)) [
    | inl e ↦
        rw e
          (rename_insts-IsPushed is (rename_phi i st).1 (fresh_at-IsPushed (codes "%" ++ i.b) st h))
    | inr e ↦ rw e (rename_rest-IsPushed (i ∷ is) st h)
  ]

module _ (x : Bytes) where
  go_all-balance :
      (f : ℕ → List MirBlock × Renaming → List MirBlock × Renaming)
      → ((u : ℕ) (st : List MirBlock × Renaming)
          → versions_of x (f u st).1.stack ≡ versions_of x st.1.stack)
      → (cs : List ℕ) (st : List MirBlock × Renaming)
      → versions_of x (go_all f cs st).1.stack ≡ versions_of x st.1.stack
  unfolding go_all
  go_all-balance f h [] st = refl
  go_all-balance f h (c ∷ cs) st = go_all-balance f h cs (f c st) ∙ h c st

  -- When `go` has renamed a block and the blocks below it in the tree, the stack of every variable is
  -- what it was.
  pub go-stack :
      (k : ℕ) (cfg : Cfg) (t : Idoms) (u : ℕ) (st : List MirBlock × Renaming)
      → versions_of x (go k cfg t u st).1.stack ≡ versions_of x st.1.stack
  unfolding go IsPushed drop_all
  go-stack zero cfg t u st = refl
  go-stack (suc k) cfg t u (bs, names) =
      let r = rename_insts (insts_at u bs) (record names { mine = [] }) in
      let st1 : List MirBlock × Renaming =
        (fill_succs r.1 (row cfg.succs u) (put_insts u r.0 bs), r.1) in
      versions_of-pop_versions x r.1.mine (go_all (go k cfg t) (kids_of t u) st1).1
      ∙ ap (drop_all x r.1.mine) (go_all-balance (go k cfg t) (go-stack k cfg t) (kids_of t u) st1)
      ∙ rename_insts-IsPushed x (versions_of x names.stack) (insts_at u bs)
          (record names { mine = [] }) refl
