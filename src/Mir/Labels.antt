-- ===== src/Mir/Labels.antt =====
-- Labels and jumps of the blocks that the lowering of compiler/src/mir/mir.cpp builds: what each call
-- on the builder does to them.
use hphl.Base.{
  ℕ, suc, ◌+◌, ◌*◌, ◌≤◌, Bool, true, false, not, ◌||◌, ◌&&◌, List, [], ◌∷◌, ◌++◌, ltb, ◌==◌,
  if◌then◌else◌, ◌≡◌, refl, sym, ap, ◌∙◌, Bool-cases, inl, inr, arith, and_left, and_right,
}
use mathlib.Core.List.{append_assoc}
use hphl.Json.{Bytes, same_bytes}
use hphl.Json.Fresh.{false_of_not}
use hphl.Json.Number.{is_digit, number_of}
use hphl.Json.Text.{decimal}
use hphl.Json.Digits.{all_digits, all_digits-digits_of, number_of-digits_of}
use hphl.Mir.{
  MirInst, MirBlock, is_terminator, is_terminated, targets_of, inst_targets, block_targets,
  block_labels, all_terminated, occurs, listed,
}
use hphl.Mir.Lower.{Lower}

pub listed-append :
    (t : Bytes) (xs ys : List Bytes) → listed t (xs ++ ys) ≡ (listed t xs || listed t ys)
unfolding listed
listed-append t [] ys = refl
listed-append t (x ∷ xs) ys = elim (Bool-cases (same_bytes t x)) [
  | inl e ↦ rw e refl
  | inr e ↦ rw e (listed-append t xs ys)
]

pub occurs-append :
    (t : Bytes) (xs ys : List Bytes) → occurs t (xs ++ ys) ≡ occurs t xs + occurs t ys
unfolding occurs
occurs-append t [] ys = omega arith
occurs-append t (x ∷ xs) ys = omega (arith, occurs-append t xs ys)

pub inst_targets-append :
    (is js : List MirInst) → inst_targets (is ++ js) ≡ inst_targets is ++ inst_targets js
unfolding inst_targets
inst_targets-append [] js = refl
inst_targets-append (i ∷ is) js =
    ap (λ (x : List Bytes). targets_of i ++ x) (inst_targets-append is js)
    ∙ sym (append_assoc (targets_of i) (inst_targets is) (inst_targets js))

pub block_targets-append :
    (bs cs : List MirBlock) → block_targets (bs ++ cs) ≡ block_targets bs ++ block_targets cs
unfolding block_targets
block_targets-append [] cs = refl
block_targets-append (b ∷ bs) cs =
    ap (λ (x : List Bytes). inst_targets b.insts ++ x) (block_targets-append bs cs)
    ∙ sym (append_assoc (inst_targets b.insts) (block_targets bs) (block_targets cs))

pub block_labels-append :
    (bs cs : List MirBlock) → block_labels (bs ++ cs) ≡ block_labels bs ++ block_labels cs
unfolding block_labels
block_labels-append [] cs = refl
block_labels-append (b ∷ bs) cs = ap (λ (x : List Bytes). b.label ∷ x) (block_labels-append bs cs)

pub all_terminated-append :
    (bs cs : List MirBlock) → all_terminated (bs ++ cs) ≡ (all_terminated bs && all_terminated cs)
unfolding all_terminated
all_terminated-append [] cs = refl
all_terminated-append (b ∷ bs) cs = elim (Bool-cases (is_terminated b.insts)) [
  | inl e ↦ rw e (all_terminated-append bs cs)
  | inr e ↦ rw e refl
]

pub is_terminated-append :
    (is : List MirInst) (i : MirInst) → is_terminated (is ++ i ∷ []) ≡ is_terminator i
unfolding is_terminated
is_terminated-append [] i = refl
is_terminated-append (j ∷ []) i = refl
is_terminated-append (j ∷ k ∷ is) i = is_terminated-append (k ∷ is) i

-- The number in a label, and a base that holds none.
digits_in : Bytes → Bytes
digits_in [] = []
digits_in (c ∷ s) = if is_digit c then c ∷ digits_in s else digits_in s

unfoldable pub has_no_digit : Bytes → Bool
has_no_digit [] = true
has_no_digit (c ∷ s) = not (is_digit c) && has_no_digit s

unfoldable pub starts_b : Bytes → Bool
starts_b [] = false
starts_b (c ∷ s) = c == 98

unfoldable pub label_number : Bytes → ℕ
unfolding digits_in
label_number l = number_of 0 (digits_in l)

-- A base of a label: it has no digit, and no `b` starts it.
unfoldable pub is_base : Bytes → Bool
unfolding has_no_digit
is_base [] = false
is_base (c ∷ s) = not (c == 98) && has_no_digit (c ∷ s)

digits_in-all : (ds : Bytes) → all_digits ds ≡ true → digits_in ds ≡ ds
unfolding digits_in all_digits
digits_in-all [] h = refl
digits_in-all (c ∷ ds) h =
    rw (and_left (is_digit c) _ h, digits_in-all ds (and_right (is_digit c) _ h)) refl

digits_in-base :
    (base ds : Bytes)
    → has_no_digit base ≡ true
    → all_digits ds ≡ true
    → digits_in (base ++ ds) ≡ ds
unfolding digits_in has_no_digit
digits_in-base [] ds h k = digits_in-all ds k
digits_in-base (c ∷ base) ds h k =
    let e : is_digit c ≡ false = false_of_not (is_digit c) (and_left (not (is_digit c)) _ h) in
    rw e (digits_in-base base ds (and_right (not (is_digit c)) _ h) k)

pub label_number-decimal :
    (base : Bytes) (n : ℕ) → has_no_digit base ≡ true → label_number (base ++ decimal n) ≡ n
unfolding label_number
label_number-decimal base n h =
    ap (number_of 0) (digits_in-base base (decimal n) h (all_digits-digits_of (suc n) n))
    ∙ number_of-digits_of (suc n) n (omega arith)

-- What the builder holds of one label, `t`.
module _ (t : Bytes) where
  -- `1` for the label itself.
  unfoldable pub is_at : Bytes → ℕ
  is_at l = if same_bytes t l then 1 else 0

  -- `1` when a jump goes to it.
  unfoldable pub hits_in : List Bytes → ℕ
  hits_in xs = if listed t xs then 1 else 0

  unfoldable pub hits : Lower → ℕ
  unfolding hits_in
  hits st = hits_in (block_targets st.done ++ inst_targets st.cur_insts)

  -- How many blocks start with it.
  unfoldable pub starts : Lower → ℕ
  starts st = occurs t (block_labels st.done ++ st.cur_label ∷ [])

  -- `1` when a block before the current one does not end in a jump.
  unfoldable pub opens : Lower → ℕ
  opens st = if all_terminated st.done then 0 else 1

  -- `1` when it is one of the first `n` numbered labels.
  unfoldable pub below : ℕ → ℕ
  below n = if starts_b t then 0 else if ltb (label_number t) n then 1 else 0

  -- From `a` to `b`: `x` counts jumps to blocks that start later, `d` the starts of blocks with a
  -- label from before.
  pub record Extends (x d : ℕ) (a b : Lower) : Type 0 where
    pub closed : opens b ≤ opens a
    pub aims : hits b ≤ hits a + x + starts b
    pub grows : starts a + d ≤ starts b
    pub once : starts b + below a.block_counter ≤ starts a + below b.block_counter + d

  hits_in-le : (xs : List Bytes) → hits_in xs ≤ 1
  unfolding hits_in
  hits_in-le xs = ground arith

  hits-le : (st : Lower) → hits st ≤ 1
  unfolding hits
  hits-le st = hits_in-le (block_targets st.done ++ inst_targets st.cur_insts)

  pub hits_in-append : (xs ys : List Bytes) → hits_in (xs ++ ys) ≤ hits_in xs + hits_in ys
  unfolding hits_in
  hits_in-append xs ys = rw (listed-append t xs ys) (ground arith)

  pub stays : (a : Lower) → Extends 0 0 a a
  stays a = record {
    closed = omega arith;
    aims = omega arith;
    grows = omega arith;
    once = omega arith;
  }

  pub then_on :
      {x d y e : ℕ} {a b c : Lower}
      → Extends x d a b
      → Extends y e b c
      → Extends (x + y) (d + e) a c
  then_on {x} {d} {y} {e} {a} {b} {c} p q = record {
    closed = omega (arith, p.closed, q.closed);
    aims = omega (arith, p.aims, q.aims, q.grows, hits-le c);
    grows = omega (arith, p.grows, q.grows);
    once = omega (arith, p.once, q.once);
  }

  pub weaker : {x d y e : ℕ} {a b : Lower} → Extends x d a b → x ≤ 8 * y → d ≡ e → Extends y e a b
  weaker {x} {d} {y} {e} {a} {b} p h k = record {
    closed = p.closed;
    aims = omega (arith, p.aims, hits-le b);
    grows = omega (arith, p.grows);
    once = omega (arith, p.once);
  }

  pub first_then : {x : ℕ} {a b c : Lower} → Extends 0 0 a b → Extends x 0 b c → Extends x 0 a c
  first_then p q = weaker (then_on p q) (omega arith) (omega arith)

  pub joined : {x : ℕ} {a b c : Lower} → Extends x 0 a b → Extends x 0 b c → Extends x 0 a c
  joined p q = weaker (then_on p q) (omega arith) (omega arith)

  -- A step whose new labels, which `e` counts, are all that it started.
  pub settled :
      (y e : ℕ) {x d s n : ℕ} {a c : Lower}
      → Extends x d (record a { temp_counter = s; block_counter = n }) c
      → below a.block_counter + e ≤ below n
      → d ≤ e
      → x ≤ 8 * (y + d)
      → Extends y 0 a c
  unfolding hits starts opens
  settled y e {x} {d} {s} {n} {a} {c} p h k l = record {
    closed = p.closed;
    aims = omega (arith, p.aims, p.grows, hits-le c);
    grows = omega (arith, p.grows);
    once = omega (arith, p.once);
  }
