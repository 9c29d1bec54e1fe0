-- ===== src/Types/Equality.antt =====
-- `Type::operator==` of compiler/src/types/types.h: symmetry and reflexivity.
use text.Mathlib.TextEquality.{eq_iff}
use text.Mathlib.TextPositions.{eq_refl}
use text.Mathlib.Text.{◌==◌ as str_eq}
use hphl.Base.{
  ℕ, String, ◌≡◌, refl, ap, Bool, true, false, ◌&&◌, arith, ◌==◌, List, [], ◌∷◌, get_elem?, some,
  ◌+◌,
}
use hphl.Base.Int.{ℤ, eq_ℤ, pos_part, neg_part}
use hphl.Types.{
  Kind, void, int, uint, float, bool, char, string, ptr, class, enum, array, list, map, tuple,
  lit_value, module_kind, option, result, task, channel, mutex, semaphore, event, barrier, type_var,
  func, unknown, OverflowPolicy, Ty, OptTy, Tys, ty, null_ty, shared_ty, nil_ty, cons_ty,
  kind_index, same_kind, Payloads, both_null, compared, same_parts, same_ty, compare_opt, same_tys,
  num_tys,
}

str_eq_comm : (s t : String) → str_eq s t ≡ str_eq t s
str_eq_comm s t = ground (arith, eq_iff s t, eq_iff t s)

nat_eq_comm : (a b : ℕ) → (a == b) ≡ (b == a)
nat_eq_comm a b = ground arith

-- The kinds in the order of their numbers.
abbrev kinds : List Kind
kinds =
    void ∷ int ∷ uint ∷ float ∷ bool ∷ char ∷ string ∷ ptr ∷ class ∷ enum ∷ array ∷ list ∷ map
    ∷ tuple ∷ lit_value ∷ module_kind ∷ option ∷ result ∷ task ∷ channel ∷ mutex ∷ semaphore ∷ event
    ∷ barrier ∷ type_var ∷ func ∷ unknown ∷ []

get_elem?-kinds : (k : Kind) → get_elem? kinds (kind_index k) ≡ some k
unfolding kind_index
get_elem?-kinds void = refl
get_elem?-kinds _ = refl

-- Two kinds that compare equal are one.
same_kind_sound : (k l : Kind) → same_kind k l ≡ true → k ≡ l
unfolding same_kind
same_kind_sound k l h =
    let e : kind_index k ≡ kind_index l = ground arith in
    cc (get_elem?-kinds k, get_elem?-kinds l, e)

same_kind_refl : (k : Kind) → same_kind k k ≡ true
unfolding same_kind
same_kind_refl k = ground arith

same_kind_comm : (k l : Kind) → same_kind k l ≡ same_kind l k
unfolding same_kind
same_kind_comm k l = nat_eq_comm (kind_index k) (kind_index l)

eq_ℤ_comm : (a b : ℤ) → eq_ℤ a b ≡ eq_ℤ b a
eq_ℤ_comm a b = nat_eq_comm (pos_part a + neg_part b) (pos_part b + neg_part a)

-- A conjunction whose last part agrees wherever the first part holds.
guarded :
    {x x' y y' s s' p p' : Bool}
    → x ≡ x'
    → y ≡ y'
    → s ≡ s'
    → (x ≡ true → p ≡ p')
    → (x && y && s && p) ≡ (x' && y' && s' && p')
guarded {x = true} {x'} {y} {y'} {s} {s'} {p} {p'} e f g h = ground (arith, h refl)
guarded {x = false} {x'} {y} {y'} {s} {s'} {p} {p'} e f g h = ground arith

mutual
  unfolding same_ty compare_opt same_tys

  ty_comm : (t u : Ty) → same_ty t u ≡ same_ty u t
  ty_comm (ty k b n e f ts z _ gs _) (ty k' b' n' e' f' ts' z' _ gs' _) =
      guarded (same_kind_comm k k') (nat_eq_comm b b') (str_eq_comm n n') (λ h. cc (
        same_kind_sound k k' h,
        opt_comm e e',
        opt_comm f f',
        tys_comm ts ts',
        eq_ℤ_comm z z',
        tys_comm gs gs',
        nat_eq_comm (num_tys gs) (num_tys gs'),
      ))

  opt_comm : (t u : OptTy) → compare_opt t u ≡ compare_opt u t
  opt_comm null_ty null_ty = refl
  opt_comm null_ty (shared_ty _) = refl
  opt_comm (shared_ty _) null_ty = refl
  opt_comm (shared_ty t) (shared_ty u) = ap compared (ty_comm t u)

  tys_comm : (ts us : Tys) → same_tys ts us ≡ same_tys us ts
  tys_comm nil_ty nil_ty = refl
  tys_comm nil_ty (cons_ty _ _) = refl
  tys_comm (cons_ty _ _) nil_ty = refl
  tys_comm (cons_ty t ts) (cons_ty u us) = cc (ty_comm t u, tys_comm ts us)

-- `a == b` and `b == a` give the same answer, at every pair of types.
pub same_ty_comm : (t u : Ty) → same_ty t u ≡ same_ty u t
same_ty_comm t u = ty_comm t u

-- Every `Result` in the type has its payload type, as `makeResult` gives it.
unfoldable mutual
  pub has_payloads : Ty → Bool
  has_payloads (ty result _ _ e f ts _ _ gs _) =
      not_null e
      && opt_has_payloads e
      && opt_has_payloads f
      && all_have_payloads ts
      && all_have_payloads gs
  has_payloads (ty _ _ _ e f ts _ _ gs _) =
      opt_has_payloads e && opt_has_payloads f && all_have_payloads ts && all_have_payloads gs

  pub not_null : OptTy → Bool
  not_null null_ty = false
  not_null (shared_ty _) = true

  pub opt_has_payloads : OptTy → Bool
  opt_has_payloads null_ty = true
  opt_has_payloads (shared_ty t) = has_payloads t

  pub all_have_payloads : Tys → Bool
  all_have_payloads nil_ty = true
  all_have_payloads (cons_ty t ts) = has_payloads t && all_have_payloads ts

nat_eq_refl : (a : ℕ) → (a == a) ≡ true
nat_eq_refl a = ground arith

-- What a payload pointer gives when it is compared with itself.
abbrev self_compared : OptTy → Payloads
self_compared null_ty = both_null
self_compared (shared_ty _) = compared true

-- A type's parts, once its own parts compare equal to themselves.
parts_refl :
    (k : Kind) (e f : OptTy)
    → (k ≡ result → not_null e ≡ true)
    → same_parts k (self_compared e) (self_compared f) true true true true ≡ true
unfolding not_null
parts_refl result null_ty f h = h refl
parts_refl result (shared_ty _) null_ty h = refl
parts_refl result (shared_ty _) (shared_ty _) h = refl
parts_refl map null_ty f h = refl
parts_refl map (shared_ty _) null_ty h = refl
parts_refl map (shared_ty _) (shared_ty _) h = refl
parts_refl _ null_ty f h = refl
parts_refl _ (shared_ty _) f h = refl

result_not_null :
    (k : Kind) (b : ℕ) (n : String) (e f : OptTy) (ts : Tys) (z : ℤ) (s : String) (gs : Tys)
    (p : OverflowPolicy)
    → has_payloads (ty k b n e f ts z s gs p) ≡ true
    → (opt_has_payloads e ≡ true)
      × (opt_has_payloads f ≡ true)
      × (all_have_payloads ts ≡ true)
      × (all_have_payloads gs ≡ true)
      × (k ≡ result → not_null e ≡ true)
unfolding has_payloads
result_not_null result b n e f ts z s gs p h =
    (ground arith, ground arith, ground arith, ground arith, λ _. ground arith)
result_not_null _ b n e f ts z s gs p h =
    (ground arith, ground arith, ground arith, ground arith, λ x. cc)

mutual
  unfolding same_ty compare_opt same_tys opt_has_payloads all_have_payloads

  ty_refl : (t : Ty) → has_payloads t ≡ true → same_ty t t ≡ true
  ty_refl (ty k b n e f ts z s gs p) h =
      let (he, hf, ht, hg, hr) = result_not_null k b n e f ts z s gs p h in
      rw
        (
          same_kind_refl k,
          nat_eq_refl b,
          eq_refl n,
          opt_refl e he,
          opt_refl f hf,
          tys_refl ts ht,
          nat_eq_refl (pos_part z + neg_part z),
          tys_refl gs hg,
          nat_eq_refl (num_tys gs),
        )
        (parts_refl k e f hr)

  opt_refl : (e : OptTy) → opt_has_payloads e ≡ true → compare_opt e e ≡ self_compared e
  opt_refl null_ty h = refl
  opt_refl (shared_ty t) h = ap compared (ty_refl t h)

  tys_refl : (ts : Tys) → all_have_payloads ts ≡ true → same_tys ts ts ≡ true
  tys_refl nil_ty h = refl
  tys_refl (cons_ty t ts) h = ground (arith, ty_refl t, tys_refl ts)

-- A type in which every `Result` has its payload type equals itself.
pub same_ty_refl : (t : Ty) → has_payloads t ≡ true → same_ty t t ≡ true
same_ty_refl t h = ty_refl t h

-- A `Result` with no payload type differs from itself.
same_ty-result_null :
    (b : ℕ) (n : String) (f : OptTy) (ts : Tys) (z : ℤ) (s : String) (gs : Tys) (p : OverflowPolicy)
    → same_ty (ty result b n null_ty f ts z s gs p) (ty result b n null_ty f ts z s gs p) ≡ false
unfolding same_ty
same_ty-result_null b n f ts z s gs p = ground arith
