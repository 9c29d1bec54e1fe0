-- ===== src/Types/Makers.antt =====
-- The other makers of types of compiler/src/types/types.h, the tests of a kind, and the names of the
-- policies.
use hphl.Base.{
  ℕ, ◌+◌, ◌-◌, ◌%◌, ◌^◌, ◌≡◌, refl, ap, String, Bool, true, false, ◌&&◌, arith, ltb, if◌then◌else◌,
  Bool-cases, inl, inr,
}
use hphl.Base.Int.{ℤ, pos, negsuc, to_word, eq_ℤ}
use hphl.Types.{
  StoragePolicy, auto, stack, heap, arena, pool, shared, thread_local, OverflowPolicy, default,
  fixed, checked, wrap, saturate, promote, Kind, void, ptr, lit_value, task, channel, mutex,
  semaphore, event, barrier, func, Ty, OptTy, Tys, ty, null_ty, shared_ty, nil_ty, same_kind, kind,
  plain, same_ty, same_tys, same_payload, compare_opt,
}

-- `storagePolicyName`
abbrev pub storage_policy_name : StoragePolicy → String
storage_policy_name auto = "auto"
storage_policy_name stack = "stack"
storage_policy_name heap = "heap"
storage_policy_name arena = "arena"
storage_policy_name pool = "pool"
storage_policy_name shared = "shared"
storage_policy_name thread_local = "threadlocal"

-- `overflowPolicyName`
abbrev pub overflow_policy_name : OverflowPolicy → String
overflow_policy_name default = "default"
overflow_policy_name fixed = "fixed"
overflow_policy_name checked = "checked"
overflow_policy_name wrap = "wrap"
overflow_policy_name saturate = "saturate"
overflow_policy_name promote = "promote"

-- `isRawPtr`, `isOption`, `isResult`, `isUnknown` and `isTypeVar` test one kind.
unfoldable pub is_kind : Kind → Ty → Bool
unfolding same_kind
is_kind k t = same_kind (kind t) k

-- `makeClass`, `makeEnum`, `makeModule` and `makeTypeVar`: a kind and a name.
abbrev pub make_named : Kind → String → Ty
make_named k n = ty k 64 n null_ty null_ty nil_ty (pos 0) "" nil_ty default

-- The conversion `(int)v`.
unfoldable pub wrap32 : ℤ → ℤ
unfolding to_word
wrap32 a = let w = to_word a % 2 ^ 32 in if ltb w (2 ^ 31) then pos w else negsuc (2 ^ 32 - 1 - w)

-- `makeLitValue`
abbrev pub make_lit_value : ℤ → Ty
make_lit_value v = ty lit_value 64 "" null_ty null_ty nil_ty (wrap32 v) "" nil_ty default

-- A payload that is null where it is `void`.
abbrev pub payload_of : Ty → OptTy
payload_of t = if is_kind void t then null_ty else shared_ty t

-- `makeTask` and `makeChannel`
abbrev pub make_task : Ty → Ty
make_task t = ty task 64 "" (payload_of t) null_ty nil_ty (pos 0) "" nil_ty default

abbrev pub make_channel : Ty → Ty
make_channel t = ty channel 64 "" (payload_of t) null_ty nil_ty (pos 0) "" nil_ty default

-- `makeFunc`
abbrev pub make_func : Ty → Tys → Ty
make_func r ps = ty func 64 "" (payload_of r) null_ty nil_ty (pos 0) "" ps default

-- `makeMutex`, `makeSemaphore`, `makeEvent`, `makeBarrier`, and `makePtr` with `makeRawPtr`.
abbrev pub make_mutex : Ty
make_mutex = plain mutex 64

abbrev pub make_semaphore : Ty
make_semaphore = plain semaphore 64

abbrev pub make_event : Ty
make_event = plain event 64

abbrev pub make_barrier : Ty
make_barrier = plain barrier 64

abbrev pub make_ptr : Ty
make_ptr = plain ptr 64

-- Two payloads are the same: both are `void`, or neither is and they are equal.
abbrev pub same_result_ty : Ty → Ty → Bool
same_result_ty r s =
    if is_kind void r then is_kind void s else if is_kind void s then false else same_ty r s

same_payload-payload_of :
    (t u : Ty) → same_payload (compare_opt (payload_of t) (payload_of u)) ≡ same_result_ty t u
unfolding compare_opt
same_payload-payload_of t u = elim (Bool-cases (is_kind void t)) [
  | inl h ↦ elim (Bool-cases (is_kind void u)) [ inl k ↦ rw (h, k) refl | inr k ↦ rw (h, k) refl ]
  | inr h ↦ elim (Bool-cases (is_kind void u)) [ inl k ↦ rw (h, k) refl | inr k ↦ rw (h, k) refl ]
]

-- Two function types are equal where their results are both `void` or equal and not `void`, and
-- their parameters are equal one by one.
same_ty-make_func :
    (r s : Ty) (ps qs : Tys)
    → same_ty (make_func r ps) (make_func s qs) ≡ (same_result_ty r s && same_tys ps qs)
unfolding same_ty
same_ty-make_func r s ps qs = ap (λ (b : Bool). b && same_tys ps qs) (same_payload-payload_of r s)

-- Two tasks are equal where their payloads are both `void`, or equal and not `void`.
same_ty-make_task : (t u : Ty) → same_ty (make_task t) (make_task u) ≡ same_result_ty t u
unfolding same_ty
same_ty-make_task t u = same_payload-payload_of t u

wrap32-period : (n : ℕ) → wrap32 (pos (n + 2 ^ 32)) ≡ wrap32 (pos n)
unfolding wrap32
wrap32-period n =
    let e : (n + 2 ^ 32) % 2 ^ 64 % 2 ^ 32 ≡ n % 2 ^ 64 % 2 ^ 32 = omega arith in rw e refl

eq_ℤ_refl : (a : ℤ) → eq_ℤ a a ≡ true
eq_ℤ_refl a = ground arith

-- Value arguments that differ by 2 ^ 32 give one type: the value is kept in an `int`.
pub same_ty-make_lit_value :
    (n : ℕ) → same_ty (make_lit_value (pos (n + 2 ^ 32))) (make_lit_value (pos n)) ≡ true
unfolding same_ty
same_ty-make_lit_value n = rw (wrap32-period n) (eq_ℤ_refl (wrap32 (pos n)))
