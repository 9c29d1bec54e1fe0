-- ===== src/Types.antt =====
-- The types of the language: compiler/src/types/types.h. A `std::shared_ptr<Type>` that may be null
-- is an `OptTy`, and a `std::vector<Type>` is a `Tys`.
pub mod Equality
pub mod Makers
mod Tests
use text.Mathlib.Text.{◌==◌ as str_eq}
use hphl.Base.{
  ℕ, ◌+◌, ◌/◌, ◌-◌, ◌^◌, String, Bool, true, false, ◌&&◌, ◌||◌, ltb, ◌==◌, if◌then◌else◌, Option,
  none, some,
}
use hphl.Base.Int.{ℤ, pos, negsuc, eq_ℤ, within, ◌+ℤ◌, ◌*ℤ◌}

pub data StoragePolicy : Type 0 where
  auto stack heap arena pool shared thread_local : StoragePolicy

pub data OverflowPolicy : Type 0 where
  default fixed checked wrap saturate promote : OverflowPolicy

pub data Kind : Type 0 where
  void int uint float bool char string ptr class enum array list map tuple lit_value module_kind
        option result task channel mutex semaphore event barrier type_var func unknown :
      Kind

mutual
  -- kind, bits, name, elem, elem2, tupleElems, arraySize, arraySizeSym, genericArgs, policy
  pub data Ty : Type 0 where
    ty : Kind → ℕ → String → OptTy → OptTy → Tys → ℤ → String → Tys → OverflowPolicy → Ty

  pub data OptTy : Type 0 where
    null_ty : OptTy
    shared_ty : Ty → OptTy

  pub data Tys : Type 0 where
    nil_ty : Tys
    cons_ty : Ty → Tys → Tys

-- The number of a kind in `Type::Kind`.
pub kind_index : Kind → ℕ
kind_index void = 0
kind_index int = 1
kind_index uint = 2
kind_index float = 3
kind_index bool = 4
kind_index char = 5
kind_index string = 6
kind_index ptr = 7
kind_index class = 8
kind_index enum = 9
kind_index array = 10
kind_index list = 11
kind_index map = 12
kind_index tuple = 13
kind_index lit_value = 14
kind_index module_kind = 15
kind_index option = 16
kind_index result = 17
kind_index task = 18
kind_index channel = 19
kind_index mutex = 20
kind_index semaphore = 21
kind_index event = 22
kind_index barrier = 23
kind_index type_var = 24
kind_index func = 25
kind_index unknown = 26

-- `==` on kinds.
unfoldable pub same_kind : Kind → Kind → Bool
unfolding kind_index
same_kind k l = kind_index k == kind_index l

-- The fields of a `Type`.
abbrev pub kind : Ty → Kind
kind (ty k _ _ _ _ _ _ _ _ _) = k

abbrev pub bits : Ty → ℕ
bits (ty _ b _ _ _ _ _ _ _ _) = b

abbrev pub array_size : Ty → ℤ
array_size (ty _ _ _ _ _ _ n _ _ _) = n

abbrev pub generic_args : Ty → Tys
generic_args (ty _ _ _ _ _ _ _ _ gs _) = gs

abbrev pub num_tys : Tys → ℕ
num_tys nil_ty = 0
num_tys (cons_ty _ ts) = 1 + num_tys ts

unfoldable pub is_numeric : Ty → Bool
unfolding same_kind
is_numeric t = same_kind (kind t) int || same_kind (kind t) uint || same_kind (kind t) float

unfoldable pub is_integer : Ty → Bool
unfolding same_kind
is_integer t = same_kind (kind t) int || same_kind (kind t) uint

unfoldable pub is_pointer : Ty → Bool
unfolding same_kind
is_pointer t =
    same_kind (kind t) string
    || same_kind (kind t) ptr
    || same_kind (kind t) class
    || same_kind (kind t) func

-- How two payload pointers compare.
pub data Payloads : Type 0 where
  both_null one_null : Payloads
  compared : Bool → Payloads

-- `if (!a && !b) return true; if (!a || !b) return false; return *a == *b;`
abbrev pub same_payload : Payloads → Bool
same_payload both_null = true
same_payload one_null = false
same_payload (compared b) = b

-- The second payload, behind a first one with result `a` that is compared only together with it.
abbrev pub same_second : Bool → Payloads → Bool
same_second a both_null = true
same_second a one_null = false
same_second a (compared b) = a && b

abbrev pub same_map : Payloads → Payloads → Bool
same_map both_null q = true
same_map one_null q = false
same_map (compared a) q = same_second a q

abbrev pub same_result : Payloads → Payloads → Bool
same_result (compared a) q = same_second a q
same_result _ q = false

-- The tests of `operator==` behind kind, bits and name: the two payloads, the elements of a tuple,
-- the array sizes, the generic arguments and their numbers.
abbrev pub same_parts : Kind → Payloads → Payloads → Bool → Bool → Bool → Bool → Bool
same_parts type_var p q ts size gs num = num
same_parts class p q ts size gs num = gs
same_parts array p q ts size gs num = size && same_payload p
same_parts list p q ts size gs num = size && same_payload p
same_parts map p q ts size gs num = same_map p q
same_parts tuple p q ts size gs num = ts
same_parts lit_value p q ts size gs num = size
same_parts option p q ts size gs num = same_payload p
same_parts task p q ts size gs num = same_payload p
same_parts channel p q ts size gs num = same_payload p
same_parts func p q ts size gs num = same_payload p && gs
same_parts result p q ts size gs num = same_result p q
same_parts _ p q ts size gs num = true

-- `Type::operator==`.
unfoldable mutual
  unfolding same_kind

  pub same_ty : Ty → Ty → Bool
  same_ty (ty k b n e f ts z _ gs _) (ty k' b' n' e' f' ts' z' _ gs' _) =
      same_kind k k'
      && b == b'
      && str_eq n n'
      && same_parts k (compare_opt e e') (compare_opt f f') (same_tys ts ts') (eq_ℤ z z')
          (same_tys gs gs') (num_tys gs == num_tys gs')

  pub compare_opt : OptTy → OptTy → Payloads
  compare_opt null_ty null_ty = both_null
  compare_opt null_ty (shared_ty _) = one_null
  compare_opt (shared_ty _) null_ty = one_null
  compare_opt (shared_ty t) (shared_ty u) = compared (same_ty t u)

  pub same_tys : Tys → Tys → Bool
  same_tys nil_ty nil_ty = true
  same_tys nil_ty (cons_ty _ _) = false
  same_tys (cons_ty _ _) nil_ty = false
  same_tys (cons_ty t ts) (cons_ty u us) = same_ty t u && same_tys ts us

-- An `int` result, `none` where the C++ arithmetic overflows (undefined behaviour).
abbrev pub int_result : ℤ → Option ℤ
int_result z = if within (negsuc (2 ^ 31 - 1)) (pos (2 ^ 31 - 1)) z then some z else none

abbrev pub mul_size : Option ℤ → ℤ → Option ℤ
mul_size none n = none
mul_size (some a) n = int_result (a *ℤ n)

abbrev pub add_size : Option ℤ → Option ℤ → Option ℤ
add_size none _ = none
add_size (some a) none = none
add_size (some a) (some b) = int_result (a +ℤ b)

-- The size of a type that is neither an array nor a tuple.
abbrev pub slot_size : Kind → ℕ → ℕ
slot_size int b = if ltb 64 b then (b + 7) / 8 else 8
slot_size uint b = if ltb 64 b then (b + 7) / 8 else 8
slot_size float b = if ltb 64 b then (b + 7) / 8 else 8
slot_size _ b = 8

-- `typeSize`; `none` where an array has no element type (a null pointer is read).
unfoldable mutual
  pub type_size : Ty → Option ℤ
  type_size (ty array b n e f ts z s gs p) = mul_size (elem_size e) z
  type_size (ty tuple b n e f ts z s gs p) = sum_size (some (pos 0)) ts
  type_size (ty k b n e f ts z s gs p) = some (pos (slot_size k b))

  pub elem_size : OptTy → Option ℤ
  elem_size null_ty = none
  elem_size (shared_ty t) = type_size t

  -- The loop that adds the sizes to `n`, from the first one on.
  pub sum_size : Option ℤ → Tys → Option ℤ
  sum_size n nil_ty = n
  sum_size n (cons_ty t ts) = sum_size (add_size n (type_size t)) ts

-- A default-constructed `Type` of the given kind and bits.
abbrev pub plain : Kind → ℕ → Ty
plain k b = ty k b "" null_ty null_ty nil_ty (pos 0) "" nil_ty default

abbrev pub make_void : Ty
make_void = plain void 64

abbrev pub make_int : ℕ → Ty
make_int b = plain int b

abbrev pub make_uint : ℕ → Ty
make_uint b = plain uint b

abbrev pub make_float : ℕ → Ty
make_float b = plain float b

abbrev pub make_bool : Ty
make_bool = plain bool 8

abbrev pub make_char : Ty
make_char = plain char 8

abbrev pub make_string : Ty
make_string = plain string 64

abbrev pub make_array : Ty → ℤ → Ty
make_array t size = ty array 64 "" (shared_ty t) null_ty nil_ty size "" nil_ty default

abbrev pub make_list : Ty → Ty
make_list t = ty list 64 "" (shared_ty t) null_ty nil_ty (pos 0) "" nil_ty default

abbrev pub make_map : Ty → Ty → Ty
make_map k v = ty map 64 "" (shared_ty k) (shared_ty v) nil_ty (pos 0) "" nil_ty default

abbrev pub make_tuple : Tys → Ty
make_tuple ts = ty tuple 64 "" null_ty null_ty ts (pos 0) "" nil_ty default

abbrev pub make_option : Ty → Ty
make_option t = ty option 64 "" (shared_ty t) null_ty nil_ty (pos 0) "" nil_ty default

abbrev pub make_result : Ty → Ty → Ty
make_result o e = ty result 64 "" (shared_ty o) (shared_ty e) nil_ty (pos 0) "" nil_ty default
