-- ===== src/Mir/Moves.antt =====
-- What the calls on the builder of compiler/src/mir/mir.cpp do to the labels, the jumps and the ends
-- of the blocks.
use hphl.Base.{
  ℕ, suc, ◌+◌, ◌≤◌, true, false, not, List, [], ◌∷◌, ◌++◌, ◌==◌, ◌≡◌, refl, sym, ap, ◌∙◌,
  Bool-cases, inl, inr, arith, and_left, and_right,
}
use mathlib.Core.List.{append_assoc, append-nil}
use hphl.Json.{Bytes, same_bytes}
use hphl.Json.Fresh.{false_of_not}
use hphl.Json.Members.{same_bytes_sound}
use hphl.Json.Text.{decimal}
use hphl.Mir.{
  MirInst, is_terminator, targets_of, inst_targets, block_targets, block_labels, all_terminated,
  occurs, listed,
}
use hphl.Mir.Lower.{
  Lower, emit, close_with, cur_terminated, push_block, start_block, br_to, cond_br_to,
}
use hphl.Mir.Labels.{
  inst_targets-append, block_targets-append, block_labels-append, all_terminated-append,
  is_terminated-append, occurs-append, starts_b, label_number, is_base, label_number-decimal, is_at,
  hits_in, hits, starts, opens, below, Extends, hits_in-append, stays, then_on, weaker,
}

module _ (t : Bytes) where
  hits-emit : (i : MirInst) (a : Lower) → hits t (emit i a) ≤ hits t a + hits_in t (targets_of i)
  unfolding hits emit inst_targets
  hits-emit i a =
      let e : block_targets a.done ++ inst_targets (a.cur_insts ++ i ∷ [])
          ≡ (block_targets a.done ++ inst_targets a.cur_insts) ++ targets_of i =
        ap (λ (x : List Bytes). block_targets a.done ++ x)
          (inst_targets-append a.cur_insts (i ∷ [])
            ∙ ap (λ (x : List Bytes). inst_targets a.cur_insts ++ x) (append-nil (targets_of i)))
        ∙ sym (append_assoc (block_targets a.done) (inst_targets a.cur_insts) (targets_of i)) in
      rw e (hits_in-append t (block_targets a.done ++ inst_targets a.cur_insts) (targets_of i))

  pub emitted :
      {x : ℕ} (i : MirInst) (a : Lower) → hits_in t (targets_of i) ≤ x → Extends t x 0 a (emit i a)
  unfolding emit opens starts
  emitted {x} i a h = record {
    closed = omega arith;
    aims = omega (arith, hits-emit i a);
    grows = omega arith;
    once = omega arith;
  }

  pub hits_in-br : (l : Bytes) → hits_in t (targets_of (br_to l)) ≤ is_at t l
  unfolding hits_in is_at listed
  hits_in-br l = ground arith

  pub hits_in-cond_br :
      (c l r : Bytes) → hits_in t (targets_of (cond_br_to c l r)) ≤ is_at t l + is_at t r
  unfolding hits_in is_at listed
  hits_in-cond_br c l r = ground arith

  pub closed_with :
      {x : ℕ} (i : MirInst) (a : Lower)
      → hits_in t (targets_of i) ≤ x
      → Extends t x 0 a (close_with i a)
  unfolding close_with
  closed_with {x} i a h = elim (Bool-cases (cur_terminated a)) [
    | inl e ↦ rw e (weaker t (stays t a) (omega arith) refl)
    | inr e ↦ rw e (emitted i a h)
  ]

  pub close_with-terminated :
      (i : MirInst) (a : Lower) → is_terminator i ≡ true → cur_terminated (close_with i a) ≡ true
  unfolding close_with emit
  close_with-terminated i a h = elim (Bool-cases (cur_terminated a)) [
    | inl e ↦ rw e e
    | inr e ↦ rw e (is_terminated-append a.cur_insts i ∙ h)
  ]

  hits-push_block : (l : Bytes) (a : Lower) → hits t (push_block l a) ≡ hits t a
  unfolding hits push_block inst_targets block_targets
  hits-push_block l a =
      rw (block_targets-append a.done (record { label = a.cur_label; insts = a.cur_insts } ∷ [])) (
        rw
          (
            append-nil (inst_targets a.cur_insts),
            append-nil (block_targets a.done ++ inst_targets a.cur_insts),
          )
          refl)

  starts-push_block : (l : Bytes) (a : Lower) → starts t (push_block l a) ≡ starts t a + is_at t l
  unfolding starts push_block block_labels is_at occurs
  starts-push_block l a =
      rw
        (
          block_labels-append a.done (record { label = a.cur_label; insts = a.cur_insts } ∷ []),
          occurs-append t (block_labels a.done ++ a.cur_label ∷ []) (l ∷ []),
        )
        (omega arith)

  opens-push_block :
      (l : Bytes) (a : Lower) → cur_terminated a ≡ true → opens t (push_block l a) ≡ opens t a
  unfolding opens push_block all_terminated
  opens-push_block l a h =
      rw
        (all_terminated-append a.done (record { label = a.cur_label; insts = a.cur_insts } ∷ []), h)
        (ground arith)

  pushed :
      (l : Bytes) (a : Lower) → cur_terminated a ≡ true → Extends t 0 (is_at t l) a (push_block l a)
  unfolding push_block
  pushed l a h = record {
    closed = omega (arith, opens-push_block l a h);
    aims = omega (arith, hits-push_block l a);
    grows = omega (arith, starts-push_block l a);
    once = omega (arith, starts-push_block l a);
  }

  pub started : (l : Bytes) (a : Lower) → Extends t (is_at t l) (is_at t l) a (start_block l a)
  started l a =
      weaker t
        (then_on t (closed_with (br_to l) a (hits_in-br l))
          (pushed l (close_with (br_to l) a) (close_with-terminated (br_to l) a refl)))
        (omega arith) (omega arith)

  -- A new label is the only one with its number.
  pub numbered :
      (base : Bytes) (n : ℕ)
      → is_base base ≡ true
      → below t n + is_at t (base ++ decimal n) ≤ below t (suc n)
  unfolding below is_at is_base starts_b
  numbered [] n h = cc
  numbered (c ∷ base) n h = elim (Bool-cases (same_bytes t ((c ∷ base) ++ decimal n))) [
    | inl e ↦
        let k : label_number t ≡ n =
          ap label_number (same_bytes_sound t ((c ∷ base) ++ decimal n) e)
          ∙ label_number-decimal (c ∷ base) n (and_right (not (c == 98)) _ h) in
        let l : starts_b t ≡ false =
          ap starts_b (same_bytes_sound t ((c ∷ base) ++ decimal n) e)
          ∙ false_of_not (c == 98) (and_left (not (c == 98)) _ h) in
        rw (l, e) (ground (arith, k))
    | inr e ↦ rw e (ground arith)
  ]

  pub jumped : (l : Bytes) (a : Lower) → Extends t (is_at t l) 0 a (emit (br_to l) a)
  jumped l a = emitted (br_to l) a (hits_in-br l)

  pub branched :
      (c l r : Bytes) (a : Lower)
      → Extends t (is_at t l + is_at t r) 0 a (emit (cond_br_to c l r) a)
  branched c l r a = emitted (cond_br_to c l r) a (hits_in-cond_br c l r)
