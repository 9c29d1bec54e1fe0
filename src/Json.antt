-- ===== src/Json.antt =====
-- JSON values: the class `JsonValue` of compiler/src/json/json.h and json.cpp. A `std::string` is the
-- list of its bytes. The fields of a value that its type does not use are left out: a change of the
-- type clears the elements and the members, and no operation reads the others.
pub mod Members
pub mod Text
pub mod Scan
pub mod Number
pub mod Parser
pub mod Escapes
pub mod Digits
pub mod Steps
pub mod Fresh
pub mod RoundTrip
pub mod Inverse
pub mod Total
pub mod Ends
mod Tests
use hphl.Base.{ℕ, zero, suc, Bool, true, false, not, ◌&&◌, ◌||◌, List, [], ◌∷◌, ◌==◌, if◌then◌else◌}
use hphl.Base.Int.{ℤ, pos, eq_ℤ}
use hphl.HirOpt.Doubles.{Doubles}

abbrev pub Bytes : Type 0
Bytes = List ℕ

mutual
  pub data JsonValue : Type 0 where
    null : JsonValue
    bool : Bool → JsonValue
    int : ℤ → JsonValue
    double : ℕ → JsonValue
    string : Bytes → JsonValue
    array : JsonItems → JsonValue
    object : JsonMembers → JsonValue

  -- `items_`
  pub data JsonItems : Type 0 where
    no_items : JsonItems
    item : JsonValue → JsonItems → JsonItems

  -- `members_`
  pub data JsonMembers : Type 0 where
    no_members : JsonMembers
    member : Bytes → JsonValue → JsonMembers → JsonMembers

-- `==` on two `std::string`s.
unfoldable pub same_bytes : Bytes → Bytes → Bool
same_bytes [] [] = true
same_bytes [] (_ ∷ _) = false
same_bytes (_ ∷ _) [] = false
same_bytes (a ∷ s) (b ∷ t) = a == b && same_bytes s t

module _ (d : Doubles) where
  -- `asInt`
  abbrev pub as_int : ℤ → JsonValue → ℤ
  as_int dflt (int a) = a
  as_int dflt (double f) = d.to_int f
  as_int dflt (bool b) = if b then pos 1 else pos 0
  as_int dflt _ = dflt

  -- `asDouble`
  abbrev pub as_double : ℕ → JsonValue → ℕ
  as_double dflt (double f) = f
  as_double dflt (int a) = d.of_int a
  as_double dflt _ = dflt

-- `asBool`
abbrev pub as_bool : Bool → JsonValue → Bool
as_bool dflt (bool b) = b
as_bool dflt (int a) = not (eq_ℤ a (pos 0))
as_bool dflt _ = dflt

-- `asString`
abbrev pub as_string : Bytes → JsonValue → Bytes
as_string dflt (string s) = s
as_string dflt _ = dflt

unfoldable pub has_member : Bytes → JsonMembers → Bool
has_member key no_members = false
has_member key (member k v ms) = same_bytes k key || has_member key ms

-- `has`
unfoldable pub has : JsonValue → Bytes → Bool
has (object ms) key = has_member key ms
has _ key = false

-- The value of the first member with the key; null where there is none.
unfoldable pub get_member : Bytes → JsonMembers → JsonValue
get_member key no_members = null
get_member key (member k v ms) = if same_bytes k key then v else get_member key ms

-- `operator[]` of a constant value.
unfoldable pub get : JsonValue → Bytes → JsonValue
get (object ms) key = get_member key ms
get _ key = null

-- The first member with the key gets the value; without one, a member is added at the end.
unfoldable pub put_member : Bytes → JsonValue → JsonMembers → JsonMembers
put_member key w no_members = member key w no_members
put_member key w (member k v ms) =
    let rest = put_member key w ms in if same_bytes k key then member k w ms else member k v rest

-- `operator[]` and an assignment to the reference that it returns: a value that is no object
-- becomes an empty one first.
unfoldable pub put : JsonValue → Bytes → JsonValue → JsonValue
put (object ms) key w = object (put_member key w ms)
put _ key w = object (put_member key w no_members)

unfoldable pub num_items : JsonItems → ℕ
num_items no_items = 0
num_items (item v vs) = suc (num_items vs)

unfoldable pub num_members : JsonMembers → ℕ
num_members no_members = 0
num_members (member k v ms) = suc (num_members ms)

-- `size`
unfoldable pub size : JsonValue → ℕ
size (array vs) = num_items vs
size _ = 0

-- `memberCount`
unfoldable pub member_count : JsonValue → ℕ
member_count (object ms) = num_members ms
member_count _ = 0

unfoldable pub nth_member : JsonMembers → ℕ → Bytes × JsonValue
nth_member no_members i = ([], null)
nth_member (member k v ms) zero = (k, v)
nth_member (member k v ms) (suc i) = nth_member ms i

-- `memberAt`: an empty key and null out of range.
unfoldable pub member_at : JsonValue → ℕ → Bytes × JsonValue
member_at (object ms) i = nth_member ms i
member_at _ i = ([], null)

unfoldable pub add_item : JsonItems → JsonValue → JsonItems
add_item no_items w = item w no_items
add_item (item v vs) w = item v (add_item vs w)

-- `push`: a value that is no array becomes an empty one first.
unfoldable pub push : JsonValue → JsonValue → JsonValue
push (array vs) w = array (add_item vs w)
push _ w = array (item w no_items)

unfoldable pub nth_item : JsonItems → ℕ → JsonValue
nth_item no_items i = null
nth_item (item v vs) zero = v
nth_item (item v vs) (suc i) = nth_item vs i

-- `at`: null out of range.
unfoldable pub at : JsonValue → ℕ → JsonValue
at (array vs) i = nth_item vs i
at _ i = null
