-- ===== src/Json/Steps.antt =====
-- One round of the loops of `parseArray` and `parseObject`, on text that `serialize` writes.
use hphl.Base.{ℕ, suc, ◌≡◌, refl, Bool, true, false, not, ◌||◌, arith, ◌==◌, Option, ◌∷◌, ◌++◌}
use hphl.Json.{Bytes, JsonValue, null, bool, array, object, string, no_items, no_members, push, put}
use hphl.Json.Text.{quoted}
use hphl.Json.Scan.{ok, skip_ws, is_space, peek, expect_literal}
use hphl.Json.Number.{is_digit, parse_number}
use hphl.Json.Parser.{number, start_of, parse_value, parse_items, parse_members, parse_array}
use hphl.Json.Escapes.{parse_string-quoted}

-- A byte that starts a value, and is neither a blank nor the end of an array.
abbrev pub starts_value : ℕ → Bool
starts_value c = not (is_space c || c == 93)

pub skip_ws_self : (c : ℕ) (s : Bytes) → starts_value c ≡ true → skip_ws (c ∷ s) ≡ c ∷ s
unfolding skip_ws
skip_ws_self c s h = let e : is_space c ≡ false = ground arith in rw e refl

pub start_of-digit : (c : ℕ) → is_digit c ≡ true → start_of c ≡ number
start_of-digit c h = ground arith

module _ (stod : Bytes → Option ℕ) where
  pub items_last :
      (n : ℕ) (arr v : JsonValue) (s rest : Bytes)
      → parse_value stod n (skip_ws s) ≡ ok v (93 ∷ rest)
      → parse_items stod (suc n) arr s ≡ ok (push arr v) rest
  unfolding parse_items skip_ws
  items_last n arr v s rest h = rw h refl

  pub items_more :
      (n : ℕ) (arr v : JsonValue) (s t : Bytes)
      → parse_value stod n (skip_ws s) ≡ ok v (44 ∷ t)
      → parse_items stod (suc n) arr s ≡ parse_items stod n (push arr v) t
  unfolding parse_items skip_ws
  items_more n arr v s t h = rw h refl

  pub members_last :
      (n : ℕ) (obj : JsonValue) (k : Bytes) (v : JsonValue) (t rest : Bytes)
      → parse_value stod n (skip_ws t) ≡ ok v (125 ∷ rest)
      → parse_members stod (suc n) obj (quoted k ++ 58 ∷ t) ≡ ok (put obj k v) rest
  unfolding parse_members skip_ws quoted
  members_last n obj k v t rest h = rw (parse_string-quoted k (58 ∷ t), h) refl

  pub members_more :
      (n : ℕ) (obj : JsonValue) (k : Bytes) (v : JsonValue) (t u : Bytes)
      → parse_value stod n (skip_ws t) ≡ ok v (44 ∷ u)
      → parse_members stod (suc n) obj (quoted k ++ 58 ∷ t) ≡ parse_members stod n (put obj k v) u
  unfolding parse_members skip_ws quoted
  members_more n obj k v t u h = rw (parse_string-quoted k (58 ∷ t), h) refl

  pub parse_value-number :
      (n : ℕ) (s : Bytes)
      → start_of (peek s) ≡ number
      → parse_value stod (suc n) s ≡ parse_number stod s
  unfolding parse_value parse_number
  parse_value-number n s h = rw (h, parse_value) refl

  pub read_null :
      (n : ℕ) (rest : Bytes)
      → parse_value stod (suc n) (110 ∷ 117 ∷ 108 ∷ 108 ∷ rest) ≡ ok null rest
  unfolding parse_value expect_literal
  read_null n rest = refl

  pub read_true :
      (n : ℕ) (rest : Bytes)
      → parse_value stod (suc n) (116 ∷ 114 ∷ 117 ∷ 101 ∷ rest) ≡ ok (bool true) rest
  unfolding parse_value expect_literal
  read_true n rest = refl

  pub read_false :
      (n : ℕ) (rest : Bytes)
      → parse_value stod (suc n) (102 ∷ 97 ∷ 108 ∷ 115 ∷ 101 ∷ rest) ≡ ok (bool false) rest
  unfolding parse_value expect_literal
  read_false n rest = refl

  pub read_string :
      (n : ℕ) (bs rest : Bytes) → parse_value stod (suc n) (quoted bs ++ rest) ≡ ok (string bs) rest
  unfolding parse_value quoted
  read_string n bs rest = parse_string-quoted bs rest

  pub empty_array :
      (n : ℕ) (rest : Bytes)
      → parse_value stod (suc (suc n)) (91 ∷ 93 ∷ rest) ≡ ok (array no_items) rest
  unfolding parse_value skip_ws
  empty_array n rest = refl

  array_items :
      (n : ℕ) (s : Bytes)
      → (peek s == 93) ≡ false
      → parse_array stod (suc n) s ≡ parse_items stod n (array no_items) s
  unfolding parse_array
  array_items n s h = rw (h, parse_array) refl

  pub open_array :
      (n : ℕ) (s : Bytes)
      → (peek (skip_ws s) == 93) ≡ false
      → parse_value stod (suc (suc n)) (91 ∷ s) ≡ parse_items stod n (array no_items) (skip_ws s)
  unfolding parse_value
  open_array n s h = array_items n (skip_ws s) h

  pub empty_object :
      (n : ℕ) (rest : Bytes)
      → parse_value stod (suc (suc n)) (123 ∷ 125 ∷ rest) ≡ ok (object no_members) rest
  unfolding parse_value skip_ws
  empty_object n rest = refl

  pub open_object :
      (n : ℕ) (bs s : Bytes)
      → parse_value stod (suc (suc n)) (123 ∷ quoted bs ++ s)
        ≡ parse_members stod n (object no_members) (quoted bs ++ s)
  unfolding parse_value skip_ws quoted
  open_object n bs s = refl
