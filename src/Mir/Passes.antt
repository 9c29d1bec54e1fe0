-- ===== src/Mir/Passes.antt =====
-- A pass of `dominators` in compiler/src/mir/mir.cpp that changes nothing.
use hphl.Base.{
  ℕ, zero, suc, ◌+◌, ◌≤◌, Bool, true, false, Option, none, some, List, [], ◌∷◌, ◌≡◌, refl, sym, ap,
  ◌∙◌, ◌⊎◌, Bool-cases, Option-cases, inl, inr, arith,
}
use mathlib.Core.Path.{subst}
use mathlib.Core.Bool.{true≢false}
use mathlib.Core.Option.{some-injective, none-ne-some}
use hphl.Mir.Cfg.{row, tally}
use hphl.Mir.Dominators.{Idoms, idom_at, take_preds, is_same, settle, pass, Ancestor}
use hphl.Mir.Candidates.{Counts, take_preds-Over}

settle_changed : (t : Idoms) (b : ℕ) (c : Option ℕ) → (settle t true b c).1 ≡ true
unfolding settle
settle_changed t b none = refl
settle_changed t b (some c) = elim (Bool-cases (is_same (idom_at t b) c)) [
  | inl e ↦ rw e refl
  | inr e ↦ rw e refl
]

pass_changed :
    (steps : ℕ) (rows : List (List ℕ)) (b : ℕ) (t t' : Idoms) (ch : Bool)
    → pass steps rows b t true ≡ some (t', ch)
    → ch ≡ true
unfolding pass
pass_changed steps [] b t t' ch e = sym (ap (λ (x : Idoms × Bool). x.1) (some-injective _ _ e))
pass_changed steps (ps ∷ rows) b t t' ch e = elim (Option-cases (take_preds steps t b none ps)) [
  | inl n ↦
      let m : pass steps (ps ∷ rows) b t true ≡ none = rw (n, pass) refl in
      absurd (none-ne-some _ (sym m ∙ e))
  | inr (c, n) ↦
      let m : pass steps (ps ∷ rows) b t true
          ≡ pass steps rows (suc b) (settle t true b c).0 (settle t true b c).1 =
        rw (n, pass) refl in
      let k : (settle t true b c).1 ≡ true = settle_changed t b c in
      pass_changed steps rows (suc b) (settle t true b c).0 t' ch (
        subst (λ (x : Bool). pass steps rows (suc b) (settle t true b c).0 x ≡ some (t', ch)) k
          (sym m ∙ e))
]

-- The dominator of block `b` is above its predecessors `ps` that count.
abbrev pub IsFixed : Idoms → ℕ → List ℕ → Type 0
IsFixed t b ps =
    (p : ℕ) → 1 ≤ tally p ps → Counts t b p → (c : ℕ) × (idom_at t b ≡ some c) × Ancestor t c p

unfoldable pub AllFixed : List (List ℕ) → ℕ → Idoms → Type 0
AllFixed rows b t = (i : ℕ) → IsFixed t (b + i) (row rows i)

AllFixed-cons :
    (ps : List ℕ) (rows : List (List ℕ)) (b : ℕ) (t : Idoms)
    → IsFixed t b ps
    → AllFixed rows (suc b) t
    → AllFixed (ps ∷ rows) b t
unfolding AllFixed row
AllFixed-cons ps rows b t f g zero =
    let e : b ≡ b + 0 = omega arith in subst (λ (x : ℕ). IsFixed t x ps) e f
AllFixed-cons ps rows b t f g (suc i) =
    let e : suc b + i ≡ b + suc i = omega arith in
    subst (λ (x : ℕ). IsFixed t x (row rows i)) e (g i)

-- What `settle` leaves when it changes nothing.
record Unsettled (t : Idoms) (b : ℕ) (c : Option ℕ) : Type 0 where
  kept : settle t false b c ≡ (t, false)
  holds : (d : ℕ) → c ≡ some d → idom_at t b ≡ some d

is_same-some : (o : Option ℕ) (c : ℕ) → is_same o c ≡ true → o ≡ some c
is_same-some none c e = cc
is_same-some (some u) c e = let k : u ≡ c = ground (arith, e) in ap some k

settle-cases :
    (t : Idoms) (b : ℕ) (c : Option ℕ) → Unsettled t b c ⊎ ((settle t false b c).1 ≡ true)
unfolding settle
settle-cases t b none = inl (record { kept = refl; holds = λ d e. absurd (none-ne-some _ e) })
settle-cases t b (some c) = elim (Bool-cases (is_same (idom_at t b) c)) [
  | inl e ↦ inl (record { kept = rw e refl; holds = λ d h. is_same-some (idom_at t b) c e ∙ h })
  | inr e ↦ inr (rw e refl)
]

-- A pass that changed nothing leaves the tree, which is fixed.
pub pass-AllFixed :
    (steps : ℕ) (rows : List (List ℕ)) (b : ℕ) (t t' : Idoms)
    → pass steps rows b t false ≡ some (t', false)
    → (t ≡ t') × AllFixed rows b t
unfolding pass row AllFixed tally
pass-AllFixed steps [] b t t' e =
    (ap (λ (x : Idoms × Bool). x.0) (some-injective _ _ e), λ i p h k. absurd (omega (arith, h)))
pass-AllFixed steps (ps ∷ rows) b t t' e = elim (Option-cases (take_preds steps t b none ps)) [
  | inl n ↦
      let m : pass steps (ps ∷ rows) b t false ≡ none = rw (n, pass) refl in
      absurd (none-ne-some _ (sym m ∙ e))
  | inr (c, n) ↦
      let m : pass steps (ps ∷ rows) b t false
          ≡ pass steps rows (suc b) (settle t false b c).0 (settle t false b c).1 =
        rw (n, pass) refl in
      elim (settle-cases t b c) [
        | inl u ↦
            let k =
              subst (λ (x : Idoms × Bool). pass steps rows (suc b) x.0 x.1 ≡ some (t', false))
                u.kept (sym m ∙ e) in
            let (same, rest) = pass-AllFixed steps rows (suc b) t t' k in
            let (before, after) = take_preds-Over t steps b none ps c n in
            (
              same,
              AllFixed-cons ps rows b t
                  (λ p h l. let (d, q, a) = after p h l in (d, u.holds d q, a)) rest,
            )
        | inr ch ↦
            let k =
              subst
                (λ (x : Bool). pass steps rows (suc b) (settle t false b c).0 x ≡ some (t', false))
                ch (sym m ∙ e) in
            absurd
              (true≢false (sym (pass_changed steps rows (suc b) (settle t false b c).0 t' false k)))
      ]
]
