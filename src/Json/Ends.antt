-- ===== src/Json/Ends.antt =====
-- The fuel of the JSON parser: values, objects, arrays and `parseJson`.
use mathlib.Core.Path.{subst}
use hphl.Base.{
  ℕ, zero, suc, ◌+◌, ◌*◌, ◌≤◌, ◌≡◌, ◌≢◌, refl, true, false, arith, ◌==◌, Bool-cases, inl, inr,
  Option, [], ◌∷◌, length,
}
use hphl.Json.{Bytes, JsonValue, null, bool, array, object, no_items, no_members}
use hphl.Json.Scan.{
  Parsed, ok, out_of_fuel, and_then, skip_ws, next, peek, expect_literal, parse_string,
}
use hphl.Json.Parser.{
  Start, brace, bracket, quotes, true_word, false_word, null_word, number, no_value, start_of,
  parse_value, parse_object, parse_members, parse_array, parse_items, parse_json, at_end,
}
use hphl.Json.Total.{
  Leaves, Leaves-and_then, Leaves-mono, length-skip_ws, Leaves-parse_string, Leaves-parse_number,
}

-- Behind one byte that is read.
next_step :
    {A : Type 0} (k : ℕ) (s : Bytes) (f : ℕ → Bytes → Parsed A)
    → ((c : ℕ) (rest : Bytes) → length rest + 1 ≤ length s → Leaves k (f c rest))
    → Leaves k (and_then (next s) f)
next_step k [] f g = tt
next_step k (c ∷ s) f g = g c s (omega arith)

Leaves-expect_literal : (ls s : Bytes) → Leaves (length s) (expect_literal ls s)
unfolding expect_literal
Leaves-expect_literal [] s = omega arith
Leaves-expect_literal (l ∷ ls) [] = tt
Leaves-expect_literal (l ∷ ls) (c ∷ s) =
    let rest = Leaves-expect_literal ls s in
    elim (Bool-cases (c == l)) [
      | inl h ↦ rw h (Leaves-mono (length s) (suc (length s)) _ (omega arith) rest)
      | inr h ↦ rw h tt
    ]

module _ (stod : Bytes → Option ℕ) where
  literal_step :
      (ls s : Bytes) (v : JsonValue)
      → Leaves (length s) (and_then (expect_literal ls s) (λ u rest. ok v rest))
  literal_step ls s v =
      Leaves-and_then (length s) (length s) (expect_literal ls s) _ (Leaves-expect_literal ls s)
        (λ u rest h. h)

  value_step :
      (n c : ℕ) (s : Bytes)
      → ((t : Bytes) → length t ≤ length s → Leaves (length t) (parse_array stod n t))
      → ((t : Bytes) → length t ≤ length s → Leaves (length t) (parse_object stod n t))
      → (k : Start) → start_of c ≡ k
      → Leaves (suc (length s)) (parse_value stod (suc n) (c ∷ s))
  unfolding parse_value
  value_step n c s arrays objects brace e =
      rw (e, parse_value)
        (Leaves-mono (length (skip_ws s)) (suc (length s)) _ (omega (arith, length-skip_ws s))
          (objects (skip_ws s) (length-skip_ws s)))
  value_step n c s arrays objects bracket e =
      rw (e, parse_value)
        (Leaves-mono (length (skip_ws s)) (suc (length s)) _ (omega (arith, length-skip_ws s))
          (arrays (skip_ws s) (length-skip_ws s)))
  value_step n c s arrays objects quotes e = rw (e, parse_value) (Leaves-parse_string (c ∷ s))
  value_step n c s arrays objects true_word e =
      rw (e, parse_value) (literal_step (116 ∷ 114 ∷ 117 ∷ 101 ∷ []) (c ∷ s) (bool true))
  value_step n c s arrays objects false_word e =
      rw (e, parse_value) (literal_step (102 ∷ 97 ∷ 108 ∷ 115 ∷ 101 ∷ []) (c ∷ s) (bool false))
  value_step n c s arrays objects null_word e =
      rw (e, parse_value) (literal_step (110 ∷ 117 ∷ 108 ∷ 108 ∷ []) (c ∷ s) (null))
  value_step n c s arrays objects number e = rw (e, parse_value) (Leaves-parse_number stod (c ∷ s))
  value_step n c s arrays objects no_value e = rw (e, parse_value) tt

  array_step :
      (n : ℕ) (s : Bytes)
      → Leaves (length s) (parse_items stod n (array no_items) s)
      → Leaves (length s) (parse_array stod (suc n) s)
  unfolding parse_value
  array_step n s is = elim (Bool-cases (peek s == 93)) [
    | inl h ↦ rw (h, parse_array) (next_step (length s) s _ (λ c rest l. omega (arith, l)))
    | inr h ↦ rw (h, parse_array) is
  ]

  object_step :
      (n : ℕ) (s : Bytes)
      → Leaves (length s) (parse_members stod n (object no_members) s)
      → Leaves (length s) (parse_object stod (suc n) s)
  unfolding parse_value
  object_step n s ms = elim (Bool-cases (peek s == 125)) [
    | inl h ↦ rw (h, parse_object) (next_step (length s) s _ (λ c rest l. omega (arith, l)))
    | inr h ↦ rw (h, parse_object) ms
  ]

  items_step :
      (n : ℕ) (arr : JsonValue) (s : Bytes)
      → Leaves (length (skip_ws s)) (parse_value stod n (skip_ws s))
      → ((a : JsonValue) (t : Bytes)
          → length t + 1 ≤ length s
          → Leaves (length t) (parse_items stod n a t))
      → Leaves (length s) (parse_items stod (suc n) arr s)
  unfolding parse_value
  items_step n arr s vs is =
      Leaves-and_then (length (skip_ws s)) (length s) (parse_value stod n (skip_ws s)) _ vs
        (λ v s1 h1. next_step (length s) (skip_ws s1) _ (λ e s2 h2.
          let le : length s2 + 1 ≤ length s =
            omega (arith, h1, h2, length-skip_ws s, length-skip_ws s1) in
          elim (Bool-cases (e == 93)) [
            | inl b ↦ rw b (omega (arith, le))
            | inr b ↦ elim (Bool-cases (e == 44)) [
              | inl d ↦
                  rw (b, d) (Leaves-mono (length s2) (length s) _ (omega (arith, le)) (is _ s2 le))
              | inr d ↦ rw (b, d) tt
            ]
          ]))

  members_step :
      (n : ℕ) (obj : JsonValue) (s : Bytes)
      → ((t : Bytes)
          → length t + 1 ≤ length s
          → Leaves (length (skip_ws t)) (parse_value stod n (skip_ws t)))
      → ((o : JsonValue) (t : Bytes)
          → length t + 1 ≤ length s
          → Leaves (length t) (parse_members stod n o t))
      → Leaves (length s) (parse_members stod (suc n) obj s)
  unfolding parse_value
  members_step n obj s vs ms = elim (Bool-cases (peek (skip_ws s) == 34)) [
    | inl h ↦
        rw (h, parse_members)
          (Leaves-and_then (length (skip_ws s)) (length s) (parse_string (skip_ws s)) _
            (Leaves-parse_string (skip_ws s))
            (λ key s1 h1. next_step (length s) (skip_ws s1) _ (λ c s2 h2.
              let le2 : length s2 + 1 ≤ length s =
                omega (arith, h1, h2, length-skip_ws s, length-skip_ws s1) in
              elim (Bool-cases (c == 58)) [
                | inl q ↦ rw q (
                    Leaves-and_then (length (skip_ws s2)) (length s)
                      (parse_value stod n (skip_ws s2)) _ (vs s2 le2)
                      (λ v s3 h3. next_step (length s) (skip_ws s3) _ (λ e s4 h4.
                        let le4 : length s4 + 1 ≤ length s =
                          omega (arith, le2, h3, h4, length-skip_ws s2, length-skip_ws s3) in
                        elim (Bool-cases (e == 125)) [
                          | inl b ↦ rw b (omega (arith, le4))
                          | inr b ↦ elim (Bool-cases (e == 44)) [
                            | inl d ↦
                                rw (b, d)
                                  (Leaves-mono (length s4) (length s) _ (omega (arith, le4))
                                    (ms _ s4 le4))
                            | inr d ↦ rw (b, d) tt
                          ]
                        ])))
                | inr q ↦ rw q tt
              ])))
    | inr h ↦ rw (h, parse_members) tt
  ]

  -- What a number of calls is enough for.
  abbrev Ends : ℕ → Type 0
  Ends n =
      ((s : Bytes) → 3 * length s + 1 ≤ n → Leaves (length s) (parse_value stod n s))
      × ((s : Bytes) → 3 * length s + 3 ≤ n → Leaves (length s) (parse_array stod n s))
      × ((s : Bytes) → 3 * length s + 3 ≤ n → Leaves (length s) (parse_object stod n s))
      × ((a : JsonValue) (s : Bytes)
          → 3 * length s + 2 ≤ n
          → Leaves (length s) (parse_items stod n a s))
      × ((o : JsonValue) (s : Bytes)
          → 3 * length s + 2 ≤ n
          → Leaves (length s) (parse_members stod n o s))

  empty_value : (n : ℕ) → Leaves 0 (parse_value stod (suc n) [])
  unfolding parse_value
  empty_value n = tt

  value_any :
      (n : ℕ)
      → ((s : Bytes) → 3 * length s + 3 ≤ n → Leaves (length s) (parse_array stod n s))
      → ((s : Bytes) → 3 * length s + 3 ≤ n → Leaves (length s) (parse_object stod n s))
      → (s : Bytes) → 3 * length s + 1 ≤ suc n
      → Leaves (length s) (parse_value stod (suc n) s)
  value_any n a o [] h = empty_value n
  value_any n a o (c ∷ t) h =
      value_step n c t (λ u l. a u (omega (arith, l, h))) (λ u l. o u (omega (arith, l, h)))
        (start_of c) refl

  ends : (n : ℕ) → Ends n
  ends zero = (
    λ s h. absurd (omega (arith, h)),
    λ s h. absurd (omega (arith, h)),
    λ s h. absurd (omega (arith, h)),
    λ a s h. absurd (omega (arith, h)),
    λ o s h. absurd (omega (arith, h)),
  )
  ends (suc n) =
      let (v, a, o, i, m) = ends n in
      (
        value_any n a o,
        λ s h. array_step n s (i (array no_items) s (omega (arith, h))),
        λ s h. object_step n s (m (object no_members) s (omega (arith, h))),
        λ arr s h.
            items_step n arr s (v (skip_ws s) (omega (arith, h, length-skip_ws s)))
              (λ b t l. i b t (omega (arith, h, l))),
        λ obj s h.
            members_step n obj s (λ t l. v (skip_ws t) (omega (arith, h, l, length-skip_ws t)))
              (λ b t l. m b t (omega (arith, h, l))),
      )

  Leaves-at_end : (v : JsonValue) (s : Bytes) → Leaves (length s) (at_end stod v s)
  Leaves-at_end v [] = omega arith
  Leaves-at_end v (c ∷ s) = tt

  Leaves-parse_json : (text : Bytes) → Leaves (length text) (parse_json stod text)
  unfolding parse_json
  Leaves-parse_json text =
      let n = suc (3 * length text) in
      let (v, a, o, i, m) = ends n in
      let le = length-skip_ws text in
      Leaves-and_then (length (skip_ws text)) (length text) (parse_value stod n (skip_ws text)) _
        (v (skip_ws text) (omega (arith, le)))
        (λ w rest h.
          Leaves-mono (length (skip_ws rest)) (length text) _
            (omega (arith, le, h, length-skip_ws rest)) (Leaves-at_end w (skip_ws rest)))

  -- On every text `parseJson` gives a value, a syntax error or an exception of the number
  -- conversions: three calls for each byte of the text and one are enough for its recursion.
  pub parse_json-ends : (text : Bytes) → parse_json stod text ≢ out_of_fuel
  parse_json-ends text e =
      subst (λ (p : Parsed JsonValue). Leaves (length text) p) e (Leaves-parse_json text)
