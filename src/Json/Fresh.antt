-- ===== src/Json/Fresh.antt =====
-- Members with keys that an object does not have: they are added at its end.
use hphl.Base.{
  ◌≡◌, refl, ap, ◌∙◌, Bool, true, false, not, ◌&&◌, ◌||◌, arith, ◌==◌, Bool-cases, inl, inr,
  and_left, and_right, and_intro, [], ◌∷◌,
}
use hphl.Json.{
  Bytes, JsonValue, JsonMembers, no_members, member, same_bytes, has_member, put_member,
}

pub same_bytes_comm : (s t : Bytes) → same_bytes s t ≡ same_bytes t s
unfolding same_bytes
same_bytes_comm [] [] = refl
same_bytes_comm [] (b ∷ t) = refl
same_bytes_comm (a ∷ s) [] = refl
same_bytes_comm (a ∷ s) (b ∷ t) =
    let rest = same_bytes_comm s t in
    let front : (a == b) ≡ (b == a) = ground arith in cc (rest, front)

or_left : (a b : Bool) → (a || b) ≡ false → a ≡ false
or_left a b h = ground arith

or_right : (a b : Bool) → (a || b) ≡ false → b ≡ false
or_right a b h = ground arith

or_both : (a b : Bool) → a ≡ false → b ≡ false → (a || b) ≡ false
or_both a b h k = ground arith

pub false_of_not : (a : Bool) → not a ≡ true → a ≡ false
false_of_not a h = ground arith

not_of_false : (a : Bool) → a ≡ false → not a ≡ true
not_of_false a h = ground arith

-- No key of `ms` is a key of `ls`.
unfoldable pub fresh : JsonMembers → JsonMembers → Bool
fresh ls no_members = true
fresh ls (member k v ms) = not (has_member k ls) && fresh ls ms

abbrev pub join_members : JsonMembers → JsonMembers → JsonMembers
join_members no_members ms = ms
join_members (member k v ls) ms = member k v (join_members ls ms)

has_member-put :
    (key k : Bytes) (v : JsonValue) (ls : JsonMembers)
    → has_member key ls ≡ false
    → same_bytes k key ≡ false
    → has_member key (put_member k v ls) ≡ false
unfolding has_member put_member
has_member-put key k v no_members h ne = or_both (same_bytes k key) false ne refl
has_member-put key k v (member l w ls) h ne =
    let front = or_left (same_bytes l key) _ h in
    let rest = has_member-put key k v ls (or_right (same_bytes l key) _ h) ne in
    elim (Bool-cases (same_bytes l k)) [
      | inl e ↦ rw e h
      | inr e ↦ rw e (or_both (same_bytes l key) _ front rest)
    ]

pub fresh-put :
    (ls ms : JsonMembers) (k : Bytes) (v : JsonValue)
    → fresh ls ms ≡ true
    → has_member k ms ≡ false
    → fresh (put_member k v ls) ms ≡ true
unfolding fresh has_member
fresh-put ls no_members k v h u = refl
fresh-put ls (member l w ms) k v h u =
    let other = same_bytes_comm k l ∙ or_left (same_bytes l k) _ u in
    let absent = false_of_not _ (and_left (not (has_member l ls)) _ h) in
    and_intro _ _ (not_of_false _ (has_member-put l k v ls absent other))
      (fresh-put ls ms k v (and_right (not (has_member l ls)) _ h) (or_right (same_bytes l k) _ u))

pub fresh_none : (ms : JsonMembers) → fresh no_members ms ≡ true
unfolding fresh has_member
fresh_none no_members = refl
fresh_none (member k v ms) = fresh_none ms

pub join_members-put :
    (ls ms : JsonMembers) (k : Bytes) (v : JsonValue)
    → has_member k ls ≡ false
    → join_members (put_member k v ls) ms ≡ join_members ls (member k v ms)
unfolding has_member put_member
join_members-put no_members ms k v h = refl
join_members-put (member l w ls) ms k v h =
    let rest = join_members-put ls ms k v (or_right (same_bytes l k) _ h) in
    rw (or_left (same_bytes l k) _ h) (ap (member l w) rest)

-- A new key is added at the end.
pub put_member-join :
    (ls : JsonMembers) (k : Bytes) (v : JsonValue)
    → has_member k ls ≡ false
    → put_member k v ls ≡ join_members ls (member k v no_members)
unfolding has_member put_member
put_member-join no_members k v h = refl
put_member-join (member l w ls) k v h =
    let rest = put_member-join ls k v (or_right (same_bytes l k) _ h) in
    rw (or_left (same_bytes l k) _ h) (ap (member l w) rest)
