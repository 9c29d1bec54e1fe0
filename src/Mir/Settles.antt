-- ===== src/Mir/Settles.antt =====
-- The first time that `dominators` of compiler/src/mir/mir.cpp gives a block a dominator.
use hphl.Base.{
  ℕ, zero, suc, ◌<◌, Bool, true, false, Option, none, some, [], ◌∷◌, length, ◌==◌, ◌≡◌, refl, sym,
  ap, ◌∙◌, Bool-cases, inl, inr, arith,
}
use mathlib.Core.Option.{none-ne-some}
use hphl.Mir.Dominators.{Idoms, idom_at, set_at, is_same, settle, Ancestor, here, above}
use hphl.Mir.Nearest.{IsTree, Ancestor-le}
use hphl.Mir.Nearby.{Known}

idom_at-set_at : (t : Idoms) (b c : ℕ) → b < length t → idom_at (set_at b c t) b ≡ some c
unfolding idom_at set_at
idom_at-set_at [] b c h = absurd (omega (arith, h))
idom_at-set_at (o ∷ t) zero c h = refl
idom_at-set_at (o ∷ t) (suc b) c h = idom_at-set_at t b c (omega (arith, h))

idom_at-set_at_other :
    (t : Idoms) (b c v : ℕ) → (v == b) ≡ false → idom_at (set_at b c t) v ≡ idom_at t v
unfolding idom_at set_at
idom_at-set_at_other [] b c v h = refl
idom_at-set_at_other (o ∷ t) zero c zero h = absurd (ground (arith, h))
idom_at-set_at_other (o ∷ t) zero c (suc v) h = refl
idom_at-set_at_other (o ∷ t) (suc b) c zero h = refl
idom_at-set_at_other (o ∷ t) (suc b) c (suc v) h = idom_at-set_at_other t b c v (ground (arith, h))

length-set_at : (t : Idoms) (b c : ℕ) → length (set_at b c t) ≡ length t
unfolding set_at
length-set_at [] b c = refl
length-set_at (o ∷ t) zero c = refl
length-set_at (o ∷ t) (suc b) c = ap suc (length-set_at t b c)

pub Known-lt : (t : Idoms) (v : ℕ) → Known t v → v < length t
unfolding idom_at
Known-lt [] v (u, e) = absurd (none-ne-some _ e)
Known-lt (o ∷ t) zero k = omega arith
Known-lt (o ∷ t) (suc v) k = omega (arith, Known-lt t v k)

-- The tree `t'` after block `b`, which had no dominator in `t`, has got `r`.
pub record Given (t t' : Idoms) (b : ℕ) (r : Option ℕ) : Type 0 where
  pub at : idom_at t' b ≡ r
  pub other : (v : ℕ) → (v == b) ≡ false → idom_at t' v ≡ idom_at t v
  pub size : length t' ≡ length t

pub settle-Given :
    (t : Idoms) (ch : Bool) (b : ℕ) (r : Option ℕ)
    → idom_at t b ≡ none
    → b < length t
    → Given t (settle t ch b r).0 b r
unfolding settle
settle-Given t ch b none e h = record { at = e; other = λ v k. refl; size = refl }
settle-Given t ch b (some c) e h =
    let k : is_same (idom_at t b) c ≡ false = rw (e, is_same) refl in
    rw k (record {
      at = idom_at-set_at t b c h;
      other = λ v l. idom_at-set_at_other t b c v l;
      size = length-set_at t b c;
    })

module _ (t t' : Idoms) (b : ℕ) (r : Option ℕ) (given : Given t t' b r) (tree : IsTree t) where
  Known-Given : (v : ℕ) → (v == b) ≡ false → Known t v → Known t' v
  Known-Given v h (u, e) = (u, given.other v h ∙ e)

  -- It is a tree where the dominator stands before the block and has one itself.
  pub Given-IsTree :
      idom_at t b ≡ none → 0 < b → ((c : ℕ) → r ≡ some c → (c < b) × Known t c) → IsTree t'
  Given-IsTree fresh h f =
      let not_root : (0 == b) ≡ false = ground (arith, h) in
      let not_b : (v : ℕ) → Known t v → (v == b) ≡ false = λ v k. elim (Bool-cases (v == b)) [
        | inl e ↦
            let q : v ≡ b = ground (arith, e) in
            absurd (none-ne-some _ (sym fresh ∙ ap (idom_at t) (sym q) ∙ k.1))
        | inr e ↦ e
      ] in
      let up : (v u : ℕ) → idom_at t' v ≡ some u → (v == b) ≡ true → r ≡ some u = λ v u e s.
        let q : v ≡ b = ground (arith, s) in sym given.at ∙ ap (idom_at t') (sym q) ∙ e in
      record {
        root = given.other 0 not_root ∙ tree.root;
        descends = λ v u e. elim (Bool-cases (suc v == b)) [
          | inl s ↦ let (l, k) = f u (up (suc v) u e s) in ground (arith, l, s)
          | inr s ↦ tree.descends v u (sym (given.other (suc v) s) ∙ e)
        ];
        closed = λ v u e. elim (Bool-cases (v == b)) [
          | inl s ↦ let (l, k) = f u (up v u e s) in Known-Given u (not_b u k) k
          | inr s ↦
              let k = tree.closed v u (sym (given.other v s) ∙ e) in Known-Given u (not_b u k) k
        ];
      }

-- Trees that agree on the blocks before `b`.
abbrev pub Agree : ℕ → Idoms → Idoms → Type 0
Agree b t t' = (v : ℕ) → v < b → idom_at t' v ≡ idom_at t v

pub Agree-Ancestor :
    (b : ℕ) (t t' : Idoms)
    → Agree b t t'
    → IsTree t
    → {a v : ℕ} → v < b
    → Ancestor t a v
    → Ancestor t' a v
Agree-Ancestor b t t' agree tree h here = here
Agree-Ancestor b t t' agree tree h (above {v} {u} e p) =
    above (agree v h ∙ e)
      (Agree-Ancestor b t t' agree tree (omega (arith, h, Ancestor-le t tree (above e here))) p)
