-- ===== src/Mir/Unchanged.antt =====
-- `mirToSSA` of compiler/src/mir/mir.cpp leaves the control-flow graph unchanged.
use hphl.Base.{ℕ, suc, Option, none, some, List, [], ◌∷◌, length, if◌then◌else◌}
use hphl.Json.{Bytes, same_bytes}
use hphl.Mir.Cfg.{Cfg, latest, add_edges, empty_rows}

-- The graph by the shapes of the blocks.
index_shape : ℕ → List (Bytes × List Bytes) → Bytes → Option ℕ
index_shape i [] l = none
index_shape i ((x, js) ∷ ss) l =
    latest (index_shape (suc i) ss l) (if same_bytes l x then some i else none)

add_shapes : (Bytes → Option ℕ) → ℕ → List (Bytes × List Bytes) → Cfg → Cfg
add_shapes find i [] cfg = cfg
add_shapes find i ((x, js) ∷ ss) cfg = add_shapes find (suc i) ss (add_edges find i js cfg)

cfg_of : List (Bytes × List Bytes) → Cfg
cfg_of ss =
    add_shapes (index_shape 0 ss) 0 ss
      (record { preds = empty_rows (length ss); succs = empty_rows (length ss) })
