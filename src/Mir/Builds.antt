-- ===== src/Mir/Builds.antt =====
-- The steps of the builder `MirLower` of compiler/src/mir/mir.cpp, and the temporaries that they write.
use hphl.Base.{
  ℕ, suc, ◌+◌, ◌≤◌, false, List, [], ◌∷◌, ◌++◌, ltb, if◌then◌else◌, ◌≡◌, refl, sym, ap, ◌∙◌,
  Bool-cases, inl, inr, arith,
}
use mathlib.Core.List.{append_assoc, append-nil}
use hphl.Json.{Bytes, same_bytes}
use hphl.Json.Members.{same_bytes_sound}
use hphl.Json.Text.{decimal}
use hphl.Mir
use hphl.Mir.{codes, MirOp, MirInst, MirBlock, is_terminated, occurs}
use hphl.Mir.Lower.{
  Lower, new_temp, emit, emit_temp, close_with, cur_terminated, push_block, start_block, br_to,
}
use hphl.Mir.Labels.{label_number, label_number-decimal, has_no_digit, occurs-append}

-- The temporary that an instruction writes, or nothing.
abbrev pub result_of : MirInst → Bytes
result_of i = elim i.op [
  | Mir.store ↦ []
  | Mir.ret ↦ []
  | Mir.br ↦ []
  | Mir.cond_br ↦ []
  | Mir.phi ↦ []
  | Mir.opaque ↦ []
  | _ ↦ i.dst
]

unfoldable pub inst_results : List MirInst → List Bytes
inst_results [] = []
inst_results (i ∷ is) = result_of i ∷ inst_results is

unfoldable pub block_results : List MirBlock → List Bytes
block_results [] = []
block_results (b ∷ bs) = inst_results b.insts ++ block_results bs

pub data Builds : Lower → Lower → Type 0 where
  same : {a : Lower} → Builds a a
  plainly : {a b : Lower} (i : MirInst) → Builds a b → result_of i ≡ [] → Builds a (emit i b)
  counted : {a b : Lower} (n : ℕ) → Builds a b → Builds a (record b { block_counter = n })
  skipped : {a b : Lower} → Builds a b → Builds a (new_temp b).1
  pushed : {a b : Lower} (l : Bytes) → Builds a b → Builds a (push_block l b)
  made :
      {a b c : Lower} (i : MirInst)
      → Builds a b
      → Builds (new_temp b).1 c
      → result_of i ≡ (new_temp b).0
      → Builds a (emit i c)

pub Builds-trans : {a b c : Lower} → Builds a b → Builds b c → Builds a c
Builds-trans p same = p
Builds-trans p (plainly i q e) = plainly i (Builds-trans p q) e
Builds-trans p (counted n q) = counted n (Builds-trans p q)
Builds-trans p (skipped q) = skipped (Builds-trans p q)
Builds-trans p (pushed l q) = pushed l (Builds-trans p q)
Builds-trans p (made i q r e) = made i (Builds-trans p q) r e

pub Builds-close_with :
    {a b : Lower} (i : MirInst) → Builds a b → result_of i ≡ [] → Builds a (close_with i b)
unfolding close_with
Builds-close_with {a} {b} i p e = elim (Bool-cases (cur_terminated b)) [
  | inl h ↦ rw h p
  | inr h ↦ rw h (plainly i p e)
]

pub Builds-start_block : {a b : Lower} (l : Bytes) → Builds a b → Builds a (start_block l b)
Builds-start_block l p = pushed l (Builds-close_with (br_to l) p refl)

pub Builds-emit_temp :
    {a b : Lower} (i : MirInst)
    → Builds a b
    → result_of (record i { dst = (new_temp b).0 }) ≡ (new_temp b).0
    → Builds a (emit_temp i b).1
Builds-emit_temp {a} {b} i p e = made (record i { dst = (new_temp b).0 }) p same e

inst_results-append :
    (is js : List MirInst) → inst_results (is ++ js) ≡ inst_results is ++ inst_results js
unfolding inst_results
inst_results-append [] js = refl
inst_results-append (i ∷ is) js =
    ap (λ (x : List Bytes). result_of i ∷ x) (inst_results-append is js)

pub block_results-append :
    (bs cs : List MirBlock) → block_results (bs ++ cs) ≡ block_results bs ++ block_results cs
unfolding block_results
block_results-append [] cs = refl
block_results-append (b ∷ bs) cs =
    ap (λ (x : List Bytes). inst_results b.insts ++ x) (block_results-append bs cs)
    ∙ sym (append_assoc (inst_results b.insts) (block_results bs) (block_results cs))

module _ (t : Bytes) (some_name : same_bytes t [] ≡ false) where
  unfoldable pub writes : Lower → ℕ
  writes st = occurs t (block_results st.done) + occurs t (inst_results st.cur_insts)

  -- `1` when it is one of the first `n` temporaries.
  unfoldable pub made_by : ℕ → ℕ
  made_by n = if ltb (label_number t) n then 1 else 0

  at_result : Bytes → ℕ
  at_result r = if same_bytes t r then 1 else 0

  writes-emit : (i : MirInst) (a : Lower) → writes (emit i a) ≡ writes a + at_result (result_of i)
  unfolding writes emit inst_results occurs at_result
  writes-emit i a =
      rw
        (
          inst_results-append a.cur_insts (i ∷ []),
          occurs-append t (inst_results a.cur_insts) (result_of i ∷ []),
        )
        (omega arith)

  writes-push_block : (l : Bytes) (a : Lower) → writes (push_block l a) ≡ writes a
  unfolding writes push_block inst_results block_results occurs
  writes-push_block l a =
      rw (block_results-append a.done (record { label = a.cur_label; insts = a.cur_insts } ∷ [])) (
        rw
          (
            append-nil (inst_results a.cur_insts),
            occurs-append t (block_results a.done) (inst_results a.cur_insts),
          )
          (omega arith))

  temp_counted : (n : ℕ) → made_by n + at_result (codes "%t" ++ decimal n) ≤ made_by (suc n)
  unfolding made_by at_result has_no_digit
  temp_counted n = elim (Bool-cases (same_bytes t (codes "%t" ++ decimal n))) [
    | inl e ↦
        let k : label_number t ≡ n =
          ap label_number (same_bytes_sound t (codes "%t" ++ decimal n) e)
          ∙ label_number-decimal (codes "%t") n refl in
        rw e (ground (arith, k))
    | inr e ↦ rw e (ground arith)
  ]

  unwritten : at_result [] ≡ 0
  unfolding at_result
  unwritten = rw some_name refl

  -- A temporary is written at most once after it was made.
  pub Builds-writes :
      {a b : Lower}
      → Builds a b
      → writes b + made_by a.temp_counter ≤ writes a + made_by b.temp_counter
  unfolding emit push_block writes
  Builds-writes same = omega arith
  Builds-writes (plainly {a} {b} i p e) =
      omega (arith, Builds-writes p, writes-emit i b, ap at_result e, unwritten)
  Builds-writes (counted n p) = Builds-writes p
  Builds-writes (skipped {a} {b} p) = omega (arith, Builds-writes p, temp_counted b.temp_counter)
  Builds-writes (pushed {a} {b} l p) = omega (arith, Builds-writes p, writes-push_block l b)
  Builds-writes (made {a} {b} {c} i p q e) = omega (
    arith,
    Builds-writes p,
    Builds-writes q,
    writes-emit i c,
    ap at_result e,
    temp_counted b.temp_counter,
  )
