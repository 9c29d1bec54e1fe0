-- ===== src/Mir/Mirror.antt =====
-- The two tables of `buildCFG` in compiler/src/mir/mir.cpp hold the same edges.
use hphl.Base.{
  ℕ, zero, suc, ◌+◌, ◌≤◌, ◌<◌, true, Option, none, some, List, [], ◌∷◌, ◌++◌, length, get_elem?,
  get_elem?-lt, ◌==◌, if◌then◌else◌, ◌≡◌, refl, sym, ap, ◌∙◌, Bool-cases, Option-cases, inl, inr,
  arith,
}
use mathlib.Core.Option.{some-injective, none-ne-some}
use hphl.Json.{Bytes, same_bytes}
use hphl.Mir.{MirBlock}
use hphl.Mir.Cfg.{
  Cfg, index_of, empty_rows, push_at, add_edge, add_edges, jumps_of, add_blocks, build_cfg, row,
  tally,
}

pub length-push_at : (k x : ℕ) (rs : List (List ℕ)) → length (push_at k x rs) ≡ length rs
unfolding push_at
length-push_at k x [] = refl
length-push_at zero x (r ∷ rs) = refl
length-push_at (suc k) x (r ∷ rs) = ap suc (length-push_at k x rs)

pub length-empty_rows : (n : ℕ) → length (empty_rows n) ≡ n
unfolding empty_rows
length-empty_rows zero = refl
length-empty_rows (suc n) = ap suc (length-empty_rows n)

pub row-empty_rows : (n i : ℕ) → row (empty_rows n) i ≡ []
unfolding empty_rows row
row-empty_rows zero i = refl
row-empty_rows (suc n) zero = refl
row-empty_rows (suc n) (suc i) = row-empty_rows n i

tally-append : (x : ℕ) (ys zs : List ℕ) → tally x (ys ++ zs) ≡ tally x ys + tally x zs
unfolding tally
tally-append x [] zs = omega arith
tally-append x (y ∷ ys) zs = omega (arith, tally-append x ys zs)

-- `1` where the edge is the one pushed.
abbrev pub at_edge : ℕ → ℕ → ℕ → ℕ → ℕ
at_edge k x i y = if i == k then (if y == x then 1 else 0) else 0

pub tally-push_at :
    (k x i y : ℕ) (rs : List (List ℕ))
    → k < length rs
    → tally y (row (push_at k x rs) i) ≡ tally y (row rs i) + at_edge k x i y
unfolding push_at row tally
tally-push_at k x i y [] h = absurd (omega (arith, h))
tally-push_at zero x zero y (r ∷ rs) h = tally-append y r (x ∷ []) ∙ ground arith
tally-push_at zero x (suc i) y (r ∷ rs) h = ground arith
tally-push_at (suc k) x zero y (r ∷ rs) h = ground arith
tally-push_at (suc k) x (suc i) y (r ∷ rs) h =
    tally-push_at k x i y rs (omega (arith, h)) ∙ ground arith

-- The two tables have `n` rows and the same edges.
pub record Mirrors (n : ℕ) (cfg : Cfg) : Type 0 where
  pub preds_size : length cfg.preds ≡ n
  succs_size : length cfg.succs ≡ n
  same_edges : (i j : ℕ) → tally j (row cfg.succs i) ≡ tally i (row cfg.preds j)

module _ (n : ℕ) (find : Bytes → Option ℕ)
    (ok : (l : Bytes) (j : ℕ) → find l ≡ some j → j < n) where
  add_edge-Mirrors :
      (i : ℕ) (l : Bytes) (cfg : Cfg) → i < n → Mirrors n cfg → Mirrors n (add_edge find i l cfg)
  unfolding add_edge
  add_edge-Mirrors i l cfg h m = elim (Option-cases (find l)) [
    | inl e ↦ rw (e, add_edge) m
    | inr (j, e) ↦
        let k = ok l j e in
        rw (e, add_edge)
          (record {
            preds_size = length-push_at j i cfg.preds ∙ m.preds_size;
            succs_size = length-push_at i j cfg.succs ∙ m.succs_size;
            same_edges = λ a b.
                rw
                  (
                    tally-push_at i j a b cfg.succs (omega (arith, h, m.succs_size)),
                    tally-push_at j i b a cfg.preds (omega (arith, k, m.preds_size)),
                    m.same_edges a b,
                  )
                  (ground arith);
          })
  ]

  add_edges-Mirrors :
      (i : ℕ) (ls : List Bytes) (cfg : Cfg)
      → i < n
      → Mirrors n cfg
      → Mirrors n (add_edges find i ls cfg)
  unfolding add_edges
  add_edges-Mirrors i [] cfg h m = m
  add_edges-Mirrors i (l ∷ ls) cfg h m =
      add_edges-Mirrors i ls (add_edge find i l cfg) h (add_edge-Mirrors i l cfg h m)

  add_blocks-Mirrors :
      (i : ℕ) (bs : List MirBlock) (cfg : Cfg)
      → i + length bs ≤ n
      → Mirrors n cfg
      → Mirrors n (add_blocks find i bs cfg)
  unfolding add_blocks
  add_blocks-Mirrors i [] cfg h m = m
  add_blocks-Mirrors i (b ∷ bs) cfg h m =
      add_blocks-Mirrors (suc i) bs (add_edges find i (jumps_of b.insts) cfg) (omega (arith, h))
        (add_edges-Mirrors i (jumps_of b.insts) cfg (omega (arith, h)) m)

-- The block that a number found for a label is the number of.
pub record Names (i : ℕ) (bs : List MirBlock) (l : Bytes) (j : ℕ) : Type 0 where
  pub place : ℕ
  pub target : MirBlock
  pub number : j ≡ i + place
  pub stands : get_elem? bs place ≡ some target
  pub labelled : same_bytes l target.label ≡ true

pub index_of-Names :
    (i : ℕ) (bs : List MirBlock) (l : Bytes) (j : ℕ) → index_of i bs l ≡ some j → Names i bs l j
unfolding index_of
index_of-Names i [] l j h = absurd (none-ne-some _ h)
index_of-Names i (b ∷ bs) l j h = elim (Option-cases (index_of (suc i) bs l)) [
  | inl e ↦ elim (Bool-cases (same_bytes l b.label)) [
    | inl k ↦
        let found : index_of i (b ∷ bs) l ≡ some i = rw (e, k) refl in
        let m : j ≡ i = some-injective _ _ (sym h ∙ found) in
        record { place = 0; target = b; number = omega (arith, m); stands = refl; labelled = k }
    | inr k ↦
        let missing : index_of i (b ∷ bs) l ≡ none = rw (e, k) refl in
        absurd (none-ne-some _ (sym missing ∙ h))
  ]
  | inr (m, e) ↦
      let r = index_of-Names (suc i) bs l m e in
      let found : index_of i (b ∷ bs) l ≡ some m = rw e refl in
      let k : m ≡ j = some-injective _ _ (sym found ∙ h) in
      record {
        place = suc r.place;
        target = r.target;
        number = omega (arith, k, r.number);
        stands = r.stands;
        labelled = r.labelled;
      }
]

index_of-lt : (bs : List MirBlock) (l : Bytes) (j : ℕ) → index_of 0 bs l ≡ some j → j < length bs
index_of-lt bs l j h =
    let r = index_of-Names 0 bs l j h in
    omega (arith, r.number, get_elem?-lt bs r.place r.target r.stands)

pub build_cfg-Mirrors : (bs : List MirBlock) → Mirrors (length bs) (build_cfg bs)
unfolding build_cfg tally
build_cfg-Mirrors bs =
    add_blocks-Mirrors (length bs) (index_of 0 bs) (index_of-lt bs) 0 bs _ (omega arith) (record {
      preds_size = length-empty_rows (length bs);
      succs_size = length-empty_rows (length bs);
      same_edges = λ i j. rw (row-empty_rows (length bs) i, row-empty_rows (length bs) j) refl;
    })

-- Block `j` stands among the successors of block `i` as often as `i` stands among the predecessors of
-- `j`.
pub build_cfg-mirror :
    (bs : List MirBlock) (i j : ℕ)
    → tally j (row (build_cfg bs).succs i) ≡ tally i (row (build_cfg bs).preds j)
build_cfg-mirror bs = (build_cfg-Mirrors bs).same_edges
