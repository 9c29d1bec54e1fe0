-- ===== src/Mir/StmtMoves.antt =====
-- What the loops, the branches and the jumps of `lowerStmt` in compiler/src/mir/mir.cpp do to the labels, the jumps and the ends of blocks.
use hphl.Base.{
  ℕ, suc, ◌+◌, Bool, true, false, [], ◌∷◌, ◌++◌, String, if◌then◌else◌, ◌≡◌, refl, arith,
}
use hphl.Json.{Bytes}
use hphl.Json.Text.{decimal}
use hphl.Mir.{codes}
use hphl.Mir.Lower.{Lower, Gen, emit, br_to, cond_br_to}
use hphl.Mir.Stmts.{Loops, jump_from, lower_if, lower_while, lower_for}
use hphl.Mir.Labels.{
  is_base, has_no_digit, is_at, Extends, stays, then_on, weaker, first_then, joined, settled,
}
use hphl.Mir.Moves.{closed_with, started, numbered, hits_in-br, jumped, branched}

module _ (t : Bytes) where
  -- How often the label is one that a `break` or a `continue` goes to.
  unfoldable pub exits : Loops → ℕ
  exits [] = 0
  exits ((end_label, next_label) ∷ loops) = is_at t end_label + is_at t next_label + exits loops

  abbrev pub Keeps : ℕ → (Lower → Lower) → Type 0
  Keeps x f = (st : Lower) → Extends t x 0 st (f st)

  pub quiet : (loops : Loops) {a b : Lower} → Extends t 0 0 a b → Extends t (exits loops) 0 a b
  quiet loops p = weaker t p (omega arith) refl

  pub jump_from-Extends :
      (target : Bytes) (base : String)
      → is_base (codes base) ≡ true
      → Keeps (is_at t target) (jump_from target base)
  unfolding jump_from emit
  jump_from-Extends target base h st =
      let n = st.block_counter in
      let label = codes base ++ decimal n in
      settled t (is_at t target) (is_at t label)
        (then_on t (jumped t target (record st { block_counter = suc n })) (started t label _))
        (numbered t (codes base) n h) (omega arith) (omega arith)

  pub lower_if-Extends :
      (has_else : Bool) (f : Gen) (g h : Lower → Lower) (x : ℕ)
      → ((st : Lower) → Extends t 0 0 st (f st).1)
      → Keeps x g
      → Keeps x h
      → Keeps x (lower_if has_else f g h)
  unfolding lower_if is_base has_no_digit
  lower_if-Extends true f g h x p q r st =
      let n = (f st).1.block_counter in
      let then_label = codes "if.then" ++ decimal n in
      let else_label = codes "if.else" ++ decimal (suc n) in
      let end_label = codes "if.end" ++ decimal (suc (suc n)) in
      first_then t (p st) (
        settled t x (is_at t then_label + is_at t else_label + is_at t end_label)
          (then_on t
            (branched t (f st).0 then_label else_label
              (record (f st).1 { block_counter = suc (suc (suc n)) }))
            (then_on t (started t then_label _) (
              then_on t (q _) (
                then_on t (closed_with t (br_to end_label) _ (hits_in-br t end_label)) (
                  then_on t (started t else_label _) (
                    then_on t (r _) (
                      then_on t (closed_with t (br_to end_label) _ (hits_in-br t end_label))
                        (started t end_label _))))))))
          (omega (
            arith,
            numbered t (codes "if.then") n refl,
            numbered t (codes "if.else") (suc n) refl,
            numbered t (codes "if.end") (suc (suc n)) refl,
          ))
          (omega arith) (omega arith))
  lower_if-Extends false f g h x p q r st =
      let n = (f st).1.block_counter in
      let then_label = codes "if.then" ++ decimal n in
      let end_label = codes "if.end" ++ decimal (suc (suc n)) in
      first_then t (p st) (
        settled t x (is_at t then_label + is_at t end_label)
          (then_on t
            (branched t (f st).0 then_label end_label
              (record (f st).1 { block_counter = suc (suc (suc n)) }))
            (then_on t (started t then_label _) (
              then_on t (q _) (
                then_on t (closed_with t (br_to end_label) _ (hits_in-br t end_label))
                  (started t end_label _)))))
          (omega (
            arith,
            numbered t (codes "if.then") n refl,
            numbered t (codes "if.else") (suc n) refl,
            numbered t (codes "if.end") (suc (suc n)) refl,
          ))
          (omega arith) (omega arith))

  pub lower_while-Extends :
      (f : Gen) (g : Bytes × Bytes → Lower → Lower) (loops : Loops)
      → ((st : Lower) → Extends t 0 0 st (f st).1)
      → ((l : Bytes × Bytes) → Keeps (exits (l ∷ loops)) (g l))
      → Keeps (exits loops) (lower_while f g)
  unfolding lower_while is_base has_no_digit exits
  lower_while-Extends f g loops p q st =
      let n = st.block_counter in
      let cond_label = codes "while.cond" ++ decimal n in
      let body_label = codes "while.body" ++ decimal (suc n) in
      let end_label = codes "while.end" ++ decimal (suc (suc n)) in
      settled t (exits loops) (is_at t cond_label + is_at t body_label + is_at t end_label)
        (then_on t (jumped t cond_label (record st { block_counter = suc (suc (suc n)) })) (
          then_on t (started t cond_label _) (
            then_on t (p _) (
              then_on t (branched t _ body_label end_label _) (
                then_on t (started t body_label _) (
                  then_on t (q (end_label, cond_label) _)
                    (then_on t (jumped t cond_label _) (started t end_label _))))))))
        (omega (
          arith,
          numbered t (codes "while.cond") n refl,
          numbered t (codes "while.body") (suc n) refl,
          numbered t (codes "while.end") (suc (suc n)) refl,
        ))
        (omega arith) (omega arith)

  branched_if :
      (b : Bool) (f : Gen) (l r : Bytes)
      → ((st : Lower) → Extends t 0 0 st (f st).1)
      → (a : Lower)
      → Extends t
          (is_at t l + is_at t r)
          0
          a
          (if b then emit (cond_br_to (f a).0 l r) (f a).1 else a)
  branched_if true f l r p a = first_then t (p a) (branched t (f a).0 l r (f a).1)
  branched_if false f l r p a = weaker t (stays t a) (omega arith) refl

  pub lower_for-Extends :
      (has_cond : Bool) (i : Lower → Lower) (f k : Gen) (g : Bytes × Bytes → Lower → Lower)
      (loops : Loops)
      → Keeps (exits loops) i
      → ((st : Lower) → Extends t 0 0 st (f st).1)
      → ((st : Lower) → Extends t 0 0 st (k st).1)
      → ((l : Bytes × Bytes) → Keeps (exits (l ∷ loops)) (g l))
      → Keeps (exits loops) (lower_for has_cond i f k g)
  unfolding lower_for is_base has_no_digit exits
  lower_for-Extends has_cond i f k g loops o p r q st =
      let n = (i st).block_counter in
      let cond_label = codes "for.cond" ++ decimal n in
      let body_label = codes "for.body" ++ decimal (suc n) in
      let step_label = codes "for.step" ++ decimal (suc (suc n)) in
      let end_label = codes "for.end" ++ decimal (suc (suc (suc n))) in
      joined t (o st) (
        settled t (exits loops)
          (is_at t cond_label + is_at t body_label + is_at t step_label + is_at t end_label)
          (then_on t
            (jumped t cond_label (record (i st) { block_counter = suc (suc (suc (suc n))) }))
            (then_on t (started t cond_label _) (
              then_on t (branched_if has_cond f body_label end_label p _) (
                then_on t (started t body_label _) (
                  then_on t (q (end_label, step_label) _) (
                    then_on t (started t step_label _) (
                      then_on t (r _)
                        (then_on t (jumped t cond_label _) (started t end_label _)))))))))
          (omega (
            arith,
            numbered t (codes "for.cond") n refl,
            numbered t (codes "for.body") (suc n) refl,
            numbered t (codes "for.step") (suc (suc n)) refl,
            numbered t (codes "for.end") (suc (suc (suc n))) refl,
          ))
          (omega arith) (omega arith))
