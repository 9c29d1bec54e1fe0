-- ===== src/Mir/Nearest.antt =====
-- The inner loops of `dominators` in compiler/src/mir/mir.cpp find the nearest common ancestor.
use hphl.Base.{
  ℕ, zero, suc, ◌+◌, ◌≤◌, ◌<◌, true, false, some, ltb, ◌==◌, ◌≡◌, refl, sym, ◌∙◌, Bool-cases, inl,
  inr, arith,
}
use mathlib.Core.Path.{subst}
use mathlib.Core.Option.{some-injective}
use hphl.Mir.Dominators.{Idoms, idom_at, climb, meet, Ancestor, here, above}

-- Block 0 is the root, a block stands behind its dominator, and a dominator has one itself.
pub record IsTree (t : Idoms) : Type 0 where
  pub root : idom_at t 0 ≡ some 0
  pub descends : (v u : ℕ) → idom_at t (suc v) ≡ some u → u ≤ v
  pub closed : (v u : ℕ) → idom_at t v ≡ some u → (w : ℕ) × (idom_at t u ≡ some w)

module _ (t : Idoms) where
  climb_left : (f g h : ℕ) → g < f → idom_at t f ≡ some h → climb t f g ≡ some (h, g)
  unfolding climb
  climb_left f g h l e = let k : ltb g f ≡ true = ground (arith, l) in rw (k, e) refl

  climb_right : (f g h : ℕ) → f ≤ g → idom_at t g ≡ some h → climb t f g ≡ some (f, h)
  unfolding climb
  climb_right f g h l e = let k : ltb g f ≡ false = ground (arith, l) in rw (k, e) refl

  meet_same : (k f g : ℕ) → f ≡ g → meet (suc k) t f g ≡ some f
  unfolding meet
  meet_same k f g e = let h : (f == g) ≡ true = ground (arith, e) in rw h refl

  meet-climb :
      (k f g h i : ℕ)
      → (f == g) ≡ false
      → climb t f g ≡ some (h, i)
      → meet (suc k) t f g ≡ meet k t h i
  unfolding meet
  meet-climb k f g h i e c = rw (e, c) refl

  module _ (tree : IsTree t) where
    pub idom-lt : (v u : ℕ) → 0 < v → idom_at t v ≡ some u → u < v
    idom-lt zero u h e = absurd (omega (arith, h))
    idom-lt (suc v) u h e = omega (arith, tree.descends v u e)

    idom-le : (v u : ℕ) → idom_at t v ≡ some u → u ≤ v
    idom-le zero u e = omega (arith, some-injective _ _ (sym e ∙ tree.root))
    idom-le (suc v) u e = omega (arith, tree.descends v u e)

    pub Ancestor-le : {w v : ℕ} → Ancestor t w v → w ≤ v
    Ancestor-le here = omega arith
    Ancestor-le (above {v} {u} e p) = omega (arith, idom-le v u e, Ancestor-le p)

    -- The ancestor that two blocks share and that is nearest to them.
    pub record NearestCommon (f g c : ℕ) : Type 0 where
      pub of_left : Ancestor t c f
      pub of_right : Ancestor t c g
      pub nearest : (a : ℕ) → Ancestor t a f → Ancestor t a g → Ancestor t a c

    up_left :
        (f g h a : ℕ)
        → g < f
        → idom_at t f ≡ some h
        → Ancestor t a f
        → Ancestor t a g
        → Ancestor t a h
    up_left f g h a l e here q = absurd (omega (arith, l, Ancestor-le q))
    up_left f g h a l e (above {v} {u} d p) q =
        subst (λ (x : ℕ). Ancestor t a x) (some-injective _ _ (sym d ∙ e)) p

    -- In a tree where block 0 is its own dominator, each other block stands behind its dominator, and
    -- each dominator has one itself, the inner loops reach the nearest common ancestor of two blocks
    -- that have dominators: `f + g + 1` steps are enough for the blocks `f` and `g`.
    pub meet-NearestCommon :
        (k f g u v : ℕ)
        → f + g < k
        → idom_at t f ≡ some u
        → idom_at t g ≡ some v
        → (c : ℕ) × (meet k t f g ≡ some c) × NearestCommon f g c
    meet-NearestCommon zero f g u v l e d = absurd (omega (arith, l))
    meet-NearestCommon (suc k) f g u v l e d = elim (Bool-cases (f == g)) [
      | inl same ↦
          let q : f ≡ g = ground (arith, same) in
          (
            f,
            meet_same k f g q,
            record {
              of_left = here;
              of_right = subst (λ (x : ℕ). Ancestor t f x) q here;
              nearest = λ a p r. p;
            },
          )
      | inr other ↦ elim (Bool-cases (ltb g f)) [
        | inl lt ↦
            let less : g < f = ground (arith, lt) in
            let (w, next) = tree.closed f u e in
            let (c, m, n) =
              meet-NearestCommon k u g w v (omega (arith, l, idom-lt f u (omega (arith, less)) e))
                next d in
            (
              c,
              meet-climb k f g u g other (climb_left f g u less e) ∙ m,
              record {
                of_left = above e n.of_left;
                of_right = n.of_right;
                nearest = λ a p q. n.nearest a (up_left f g u a less e p q) q;
              },
            )
        | inr le ↦
            let less : f < g = ground (arith, le, other) in
            let (w, next) = tree.closed g v d in
            let (c, m, n) =
              meet-NearestCommon k f v u w (omega (arith, l, idom-lt g v (omega (arith, less)) d)) e
                next in
            (
              c,
              meet-climb k f g f v other (climb_right f g v (omega (arith, less)) d) ∙ m,
              record {
                of_left = n.of_left;
                of_right = above d n.of_right;
                nearest = λ a p q. n.nearest a p (up_left g f v a less d q p);
              },
            )
      ]
    ]
