-- ===== src/Json/Members.antt =====
-- Reading and writing the members of an object and the elements of an array.
use hphl.Base.{
  ℕ, zero, suc, ◌<◌, ◌≡◌, refl, ap, ◌∙◌, Bool, true, false, arith, ◌==◌, [], ◌∷◌, if◌then◌else◌,
  Bool-cases, inl, inr, and_left, and_right,
}
use hphl.Json.{
  Bytes, JsonValue, array, object, JsonItems, no_items, item, JsonMembers, no_members, member,
  same_bytes, has, has_member, get, get_member, put, put_member, size, num_items, member_count,
  num_members, push, add_item, at, nth_item,
}

pub same_bytes_refl : (s : Bytes) → same_bytes s s ≡ true
unfolding same_bytes
same_bytes_refl [] = refl
same_bytes_refl (a ∷ s) = ground (arith, same_bytes_refl s)

pub same_bytes_sound : (s t : Bytes) → same_bytes s t ≡ true → s ≡ t
unfolding same_bytes
same_bytes_sound [] [] h = refl
same_bytes_sound [] (b ∷ t) h = cc
same_bytes_sound (a ∷ s) [] h = cc
same_bytes_sound (a ∷ s) (b ∷ t) h =
    let e : a ≡ b = ground (arith, and_left (a == b) _ h) in
    cc (e, same_bytes_sound s t (and_right (a == b) _ h))

get_member-put :
    (key : Bytes) (w : JsonValue) (ms : JsonMembers) → get_member key (put_member key w ms) ≡ w
unfolding get_member put_member
get_member-put key w no_members = rw (same_bytes_refl key) refl
get_member-put key w (member k v ms) =
    let rest = get_member-put key w ms in
    elim (Bool-cases (same_bytes k key)) [ inl h ↦ rw (h, h) refl | inr h ↦ rw (h, h) rest ]

-- The value that was written to a key is read back from it, whatever the value was before.
pub get-put : (v : JsonValue) (key : Bytes) (w : JsonValue) → get (put v key w) key ≡ w
unfolding get put get_member put_member
get-put (object ms) key w = get_member-put key w ms
get-put _ key w = get_member-put key w no_members

get_member-put_other :
    (key other : Bytes) (w : JsonValue) (ms : JsonMembers)
    → same_bytes key other ≡ false
    → get_member other (put_member key w ms) ≡ get_member other ms
unfolding get_member put_member
get_member-put_other key other w no_members ne = rw ne refl
get_member-put_other key other w (member k v ms) ne =
    let rest = get_member-put_other key other w ms ne in
    elim (Bool-cases (same_bytes k key)) [
      | inl h ↦
          let e : same_bytes k other ≡ false =
            ap (λ (s : Bytes). same_bytes s other) (same_bytes_sound k key h) ∙ ne in
          rw (h, e) refl
      | inr h ↦ rw h (ap (λ (x : JsonValue). if same_bytes k other then v else x) rest)
    ]

-- After a write to a key, every other key reads what it read before, null where the value had no such
-- member or was no object.
pub get-put_other :
    (v : JsonValue) (key other : Bytes) (w : JsonValue)
    → same_bytes key other ≡ false
    → get (put v key w) other ≡ get v other
unfolding get put get_member put_member
get-put_other (object ms) key other w ne = get_member-put_other key other w ms ne
get-put_other _ key other w ne = rw ne refl

suc_if :
    (b : Bool) (x n : ℕ) → x ≡ (if b then n else suc n) → suc x ≡ (if b then suc n else suc (suc n))
suc_if true x n h = ap suc h
suc_if false x n h = ap suc h

num_members-put :
    (key : Bytes) (w : JsonValue) (ms : JsonMembers)
    → num_members (put_member key w ms)
      ≡ (if has_member key ms then num_members ms else suc (num_members ms))
unfolding num_members put_member has_member
num_members-put key w no_members = refl
num_members-put key w (member k v ms) =
    let rest = num_members-put key w ms in
    elim (Bool-cases (same_bytes k key)) [
      | inl h ↦ rw h refl
      | inr h ↦ rw h (suc_if (has_member key ms) _ (num_members ms) rest)
    ]

-- A write to a key that the object has keeps the number of members, and any other write adds one.
member_count-put :
    (v : JsonValue) (key : Bytes) (w : JsonValue)
    → member_count (put v key w) ≡ (if has v key then member_count v else suc (member_count v))
unfolding member_count put has num_members put_member
member_count-put (object ms) key w = num_members-put key w ms
member_count-put _ key w = refl

num_items-add : (vs : JsonItems) (w : JsonValue) → num_items (add_item vs w) ≡ suc (num_items vs)
unfolding num_items add_item
num_items-add no_items w = refl
num_items-add (item v vs) w = ap suc (num_items-add vs w)

nth_item-add : (vs : JsonItems) (w : JsonValue) → nth_item (add_item vs w) (num_items vs) ≡ w
unfolding num_items add_item nth_item
nth_item-add no_items w = refl
nth_item-add (item v vs) w = nth_item-add vs w

nth_item-add_before :
    (vs : JsonItems) (w : JsonValue) (i : ℕ)
    → i < num_items vs
    → nth_item (add_item vs w) i ≡ nth_item vs i
unfolding num_items add_item nth_item
nth_item-add_before no_items w i h = absurd (omega arith)
nth_item-add_before (item v vs) w zero h = refl
nth_item-add_before (item v vs) w (suc i) h = nth_item-add_before vs w i (omega arith)

-- `push` makes an array one element longer: the new element is the last, the others stay.
at-push :
    (v w : JsonValue)
    → (size (push v w) ≡ suc (size v))
      × (at (push v w) (size v) ≡ w)
      × ((i : ℕ) → i < size v → at (push v w) i ≡ at v i)
unfolding size push at num_items nth_item
at-push (array vs) w = (num_items-add vs w, nth_item-add vs w, nth_item-add_before vs w)
at-push _ w = (refl, refl, λ i h. absurd (omega arith))
