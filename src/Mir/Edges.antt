-- ===== src/Mir/Edges.antt =====
-- The control-flow graph of `buildCFG` in compiler/src/mir/mir.cpp: its edges are the jumps at the ends
-- of the blocks.
use hphl.Base.{
  ℕ, zero, suc, ◌+◌, ◌≤◌, ◌<◌, true, false, Option, none, some, List, [], ◌∷◌, length, get_elem?,
  ◌==◌, if◌then◌else◌, ◌≡◌, refl, ap, ◌∙◌, Option-cases, inl, inr, arith,
}
use mathlib.Core.Path.{subst}
use mathlib.Core.Option.{some-injective, none-ne-some}
use hphl.Json.{Bytes}
use hphl.Mir.{MirBlock}
use hphl.Mir.Cfg.{
  Cfg, index_of, empty_rows, push_at, add_edge, add_edges, jumps_of, add_blocks, build_cfg, row,
  tally,
}
use hphl.Mir.Mirror.{length-push_at, length-empty_rows, row-empty_rows, tally-push_at}

-- The jumps of a block to block `j`.
unfoldable pub jumps_to : (Bytes → Option ℕ) → ℕ → List Bytes → ℕ
jumps_to find j [] = 0
jumps_to find j (l ∷ ls) =
    elim (find l) [ none ↦ 0 | some k ↦ if j == k then 1 else 0 ] + jumps_to find j ls

add_edge-found :
    (find : Bytes → Option ℕ) (i : ℕ) (l : Bytes) (cfg : Cfg) (m : ℕ)
    → find l ≡ some m
    → add_edge find i l cfg
      ≡ record { preds = push_at m i cfg.preds; succs = push_at i m cfg.succs }
unfolding add_edge
add_edge-found find i l cfg m e = rw (e, add_edge) refl

add_edge-missing :
    (find : Bytes → Option ℕ) (i : ℕ) (l : Bytes) (cfg : Cfg)
    → find l ≡ none
    → add_edge find i l cfg ≡ cfg
unfolding add_edge
add_edge-missing find i l cfg e = rw (e, add_edge) refl

module _ (find : Bytes → Option ℕ) where
  tally-add_edges :
      (i : ℕ) (ls : List Bytes) (cfg : Cfg) (k j : ℕ)
      → i < length cfg.succs
      → tally j (row (add_edges find i ls cfg).succs k)
        ≡ tally j (row cfg.succs k) + (if k == i then jumps_to find j ls else 0)
  unfolding add_edges jumps_to
  tally-add_edges i [] cfg k j h = ground arith
  tally-add_edges i (l ∷ ls) cfg k j h = elim (Option-cases (find l)) [
    | inl e ↦
        ap (λ (c : Cfg). tally j (row (add_edges find i ls c).succs k))
          (add_edge-missing find i l cfg e)
        ∙ tally-add_edges i ls cfg k j h
        ∙ (rw e (ground arith))
    | inr (m, e) ↦
        let cfg' : Cfg = record { preds = push_at m i cfg.preds; succs = push_at i m cfg.succs } in
        let p = tally-add_edges i ls cfg' k j (omega (arith, h, length-push_at i m cfg.succs)) in
        ap (λ (c : Cfg). tally j (row (add_edges find i ls c).succs k))
          (add_edge-found find i l cfg m e)
        ∙ p
        ∙ (rw (e, tally-push_at i m k j cfg.succs h) (ground arith))
  ]

  size_kept :
      (i : ℕ) (ls : List Bytes) (cfg : Cfg)
      → length (add_edges find i ls cfg).succs ≡ length cfg.succs
  unfolding add_edges
  size_kept i [] cfg = refl
  size_kept i (l ∷ ls) cfg = elim (Option-cases (find l)) [
    | inl e ↦
        ap (λ (c : Cfg). length (add_edges find i ls c).succs) (add_edge-missing find i l cfg e)
        ∙ size_kept i ls cfg
    | inr (m, e) ↦
        ap (λ (c : Cfg). length (add_edges find i ls c).succs) (add_edge-found find i l cfg m e)
        ∙ size_kept i ls _
        ∙ length-push_at i m cfg.succs
  ]

  -- What the blocks from number `i` on add to row `k`.
  later : ℕ → List MirBlock → ℕ → ℕ → ℕ
  later i [] k j = 0
  later i (b ∷ bs) k j =
      (if k == i then jumps_to find j (jumps_of b.insts) else 0) + later (suc i) bs k j

  tally-add_blocks :
      (i : ℕ) (bs : List MirBlock) (cfg : Cfg) (k j : ℕ)
      → i + length bs ≤ length cfg.succs
      → tally j (row (add_blocks find i bs cfg).succs k)
        ≡ tally j (row cfg.succs k) + later i bs k j
  unfolding add_blocks later
  tally-add_blocks i [] cfg k j h = omega arith
  tally-add_blocks i (b ∷ bs) cfg k j h =
      let ls = jumps_of b.insts in
      tally-add_blocks (suc i) bs (add_edges find i ls cfg) k j
        (omega (arith, h, size_kept i ls cfg))
      ∙ omega (arith, tally-add_edges i ls cfg k j (omega (arith, h)))

  later-before : (i : ℕ) (bs : List MirBlock) (k j : ℕ) → k < i → later i bs k j ≡ 0
  unfolding later
  later-before i [] k j h = refl
  later-before i (b ∷ bs) k j h =
      let e : (k == i) ≡ false = ground (arith, h) in
      rw e (omega (arith, later-before (suc i) bs k j (omega (arith, h))))

  later-stands :
      (i : ℕ) (bs : List MirBlock) (k j : ℕ) (b : MirBlock)
      → get_elem? bs k ≡ some b
      → later i bs (i + k) j ≡ jumps_to find j (jumps_of b.insts)
  unfolding later
  later-stands i [] k j b h = absurd (none-ne-some _ h)
  later-stands i (c ∷ bs) zero j b h =
      let e : (i + 0 == i) ≡ true = ground arith in
      rw (e, later-before (suc i) bs (i + 0) j (omega arith), some-injective _ _ h) (omega arith)
  later-stands i (c ∷ bs) (suc k) j b h =
      let e : (i + suc k == i) ≡ false = ground arith in
      let q : i + suc k ≡ suc i + k = omega arith in
      rw (e, q, later-stands (suc i) bs k j b h) (omega arith)

-- Block `j` is a successor of block `i` as often as a jump at the end of `i` names the label whose
-- number is `j`.
pub build_cfg-succs :
    (bs : List MirBlock) (i j : ℕ) (b : MirBlock)
    → get_elem? bs i ≡ some b
    → tally j (row (build_cfg bs).succs i) ≡ jumps_to (index_of 0 bs) j (jumps_of b.insts)
unfolding build_cfg tally
build_cfg-succs bs i j b h =
    let none_yet : tally j (row (empty_rows (length bs)) i) ≡ 0 =
      ap (tally j) (row-empty_rows (length bs) i) in
    let q : 0 + i ≡ i = omega arith in
    let p =
      subst
        (λ (x : ℕ). later (index_of 0 bs) 0 bs x j ≡ jumps_to (index_of 0 bs) j (jumps_of b.insts))
        q (later-stands (index_of 0 bs) 0 bs i j b h) in
    tally-add_blocks (index_of 0 bs) 0 bs _ i j (omega (arith, length-empty_rows (length bs)))
    ∙ omega (arith, none_yet, p)
