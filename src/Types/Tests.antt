-- ===== src/Types/Tests.antt =====
-- Sizes and comparisons of some types, and concrete uses of the theorems.
use hphl.Base.{◌+◌, ◌^◌, true, ◌≡◌, refl, some}
use hphl.Base.Int.{pos, ◌*ℤ◌, ◌+ℤ◌}
use hphl.Types.{
  map, Ty, null_ty, shared_ty, nil_ty, cons_ty, ty, same_ty, type_size, make_int, make_uint,
  make_array, make_tuple, make_map, make_string, make_result, default,
}
use hphl.Types.Makers.{make_lit_value, same_ty-make_lit_value}
use hphl.Types.Equality.{has_payloads, same_ty_comm, same_ty_refl}

-- `(int<64>[3], uint<128>)` takes 3 slots and 16 bytes.
type_size-pair :
    type_size
      (make_tuple (cons_ty (make_array (make_int 64) (pos 3)) (cons_ty (make_uint 128) nil_ty)))
    ≡ some (pos 40)
unfolding type_size ◌*ℤ◌ ◌+ℤ◌
type_size-pair = refl

-- A map without a value type.
abbrev half_map : Ty
half_map = ty map 64 "" (shared_ty make_string) null_ty nil_ty (pos 0) "" nil_ty default

same_ty_comm_example :
    same_ty half_map (make_map make_string (make_int 64))
    ≡ same_ty (make_map make_string (make_int 64)) half_map
same_ty_comm_example = same_ty_comm half_map (make_map make_string (make_int 64))

same_ty_refl_example :
    same_ty (make_result (make_int 32) make_string) (make_result (make_int 32) make_string) ≡ true
unfolding has_payloads
same_ty_refl_example = same_ty_refl (make_result (make_int 32) make_string) refl

same_ty-make_lit_value_example :
    same_ty (make_lit_value (pos (64 + 2 ^ 32))) (make_lit_value (pos 64)) ≡ true
same_ty-make_lit_value_example = same_ty-make_lit_value 64
