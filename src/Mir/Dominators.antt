-- ===== src/Mir/Dominators.antt =====
-- `SsaBuilder::dominators` of compiler/src/mir/mir.cpp: the immediate dominator of each block. -1 is
-- `none`. The loops that need not end run on fuel: `steps` for each of the inner ones.
use hphl.Base.{
  ℕ, zero, suc, ◌≤◌, ◌<◌, Bool, true, false, ◌||◌, Option, none, some, List, [], ◌∷◌, length, ltb,
  ◌==◌, if◌then◌else◌, ◌≡◌,
}
use hphl.Mir.Cfg.{Cfg, row, tally}

-- `idom_`
abbrev pub Idoms : Type 0
Idoms = List (Option ℕ)

unfoldable pub idom_at : Idoms → ℕ → Option ℕ
idom_at [] v = none
idom_at (o ∷ t) zero = o
idom_at (o ∷ t) (suc v) = idom_at t v

unfoldable pub set_at : ℕ → ℕ → Idoms → Idoms
set_at v u [] = []
set_at zero u (o ∷ t) = some u ∷ t
set_at (suc v) u (o ∷ t) = o ∷ set_at v u t

-- One step of the inner loops: the larger of the two numbers goes up the tree.
unfoldable pub climb : Idoms → ℕ → ℕ → Option (ℕ × ℕ)
climb t f g =
    if ltb g f
    then elim (idom_at t f) [ none ↦ none | some h ↦ some (h, g) ]
    else elim (idom_at t g) [ none ↦ none | some h ↦ some (f, h) ]

-- `while (f1 != f2)`
unfoldable pub meet : ℕ → Idoms → ℕ → ℕ → Option ℕ
meet zero t f g = none
meet (suc k) t f g =
    let rest : Option ℕ = elim (climb t f g) [ none ↦ none | some (h, i) ↦ meet k t h i ] in
    if f == g then some f else rest

abbrev pub is_none : Option ℕ → Bool
is_none none = true
is_none (some u) = false

-- What one predecessor, `p`, makes of `cand`; `none` when the loop takes more steps.
unfoldable pub take_pred : ℕ → Idoms → ℕ → Option ℕ → ℕ → Option (Option ℕ)
take_pred steps t b cand p = if is_none (idom_at t p) || p == b then some cand else elim cand [
  | none ↦ some (some p)
  | some c ↦ elim (meet steps t p c) [ none ↦ none | some m ↦ some (some m) ]
]

-- `for (int p : preds_[b])`
unfoldable pub take_preds : ℕ → Idoms → ℕ → Option ℕ → List ℕ → Option (Option ℕ)
take_preds steps t b cand [] = some cand
take_preds steps t b cand (p ∷ ps) = elim (take_pred steps t b cand p) [
  | none ↦ none
  | some c ↦ take_preds steps t b c ps
]

abbrev pub is_same : Option ℕ → ℕ → Bool
is_same none c = false
is_same (some u) c = u == c

-- `if (cand != -1 && idom_[b] != cand)`
unfoldable pub settle : Idoms → Bool → ℕ → Option ℕ → Idoms × Bool
settle t changed b none = (t, changed)
settle t changed b (some c) = if is_same (idom_at t b) c then (t, changed) else (set_at b c t, true)

-- The blocks from number `b` on, with their predecessors.
unfoldable pub pass : ℕ → List (List ℕ) → ℕ → Idoms → Bool → Option (Idoms × Bool)
pass steps [] b t changed = some (t, changed)
pass steps (ps ∷ rows) b t changed = elim (take_preds steps t b none ps) [
  | none ↦ none
  | some c ↦ let (t', ch) = settle t changed b c in pass steps rows (suc b) t' ch
]

abbrev pub rest_of : List (List ℕ) → List (List ℕ)
rest_of [] = []
rest_of (ps ∷ rows) = rows

-- `while (changed)`
unfoldable pub rounds : ℕ → ℕ → Cfg → Idoms → Option Idoms
rounds steps zero cfg t = none
rounds steps (suc k) cfg t = elim (pass steps (rest_of cfg.preds) 1 t false) [
  | none ↦ none
  | some (t', changed) ↦ if changed then rounds steps k cfg t' else some t'
]

unfoldable pub no_idoms : List (List ℕ) → Idoms
no_idoms [] = []
no_idoms (ps ∷ rows) = none ∷ no_idoms rows

-- `dominators`, with `idom_[0] = 0` at the start: so many rounds, and steps in each inner loop.
unfoldable pub dominators : ℕ → Cfg → Option Idoms
dominators fuel cfg = rounds fuel fuel cfg (set_at 0 0 (no_idoms cfg.preds))

-- `w` stands on the way from `v` up the tree.
pub data Ancestor (t : Idoms) (w : ℕ) : ℕ → Type 0 where
  here : Ancestor t w w
  above : {v u : ℕ} → idom_at t v ≡ some u → Ancestor t w u → Ancestor t w v

-- A walk from block 0 to `v` along the edges; the blocks that it visits are the last one first.
pub data Walk (cfg : Cfg) : List ℕ → ℕ → Type 0 where
  start : 0 < length cfg.preds → Walk cfg (0 ∷ []) 0
  step :
      {vs : List ℕ} {p : ℕ} (v : ℕ)
      → Walk cfg vs p
      → 1 ≤ tally p (row cfg.preds v)
      → Walk cfg (v ∷ vs) v
