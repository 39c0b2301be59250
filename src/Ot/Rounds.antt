-- ===== src/Ot/Rounds.antt =====
-- The loops of src/services/document/ot.cc against a unit version: what one round keeps, and that
-- the rounds end.
use jdocs.Base.{
  ℕ, zero, suc, ◌+◌, ◌≤◌, ◌<◌, ◌≡◌, refl, sym, ap, ap₂, ◌∙◌, inl, inr, true, false, List, [], ◌∷◌,
  ◌++◌, some, append-nil, append_assoc, arith, length, length-append, Bool-cases, u32_mod,
}
use jdocs.Ot.Operation.{JsonOps, Operation, OpIterator, has_next}
use jdocs.Ot.Passes.{Pass, more, loop}
use jdocs.Ot.Units.{Edit, units, ahead}
use jdocs.Ot.Iterate.{IsReady, todo}

abbrev pub left : {J : Type 0} → Pass J → ℕ
left p = length p.iter_a.rest + length p.iter_b.rest

abbrev pub volume : {J : Type 0} → Pass J → ℕ
volume p = length (units p.result) + length (todo p.iter_a) + length (todo p.iter_b)

-- Both iterators are inside well-formed operations, and no length can wrap.
pub record IsSound {J : Type 0} (p : Pass J) : Type 0 where
  pub ready_a : IsReady p.iter_a
  pub ready_b : IsReady p.iter_b
  pub room : volume p < u32_mod

-- What the result and the units still to come mean together.
abbrev pub outcome : {J : Type 0} → (List Edit → List Edit → List Edit) → Pass J → List Edit
outcome sem p = units p.result ++ sem (todo p.iter_a) (todo p.iter_b)

pub record Round {J : Type 0} (sem : List Edit → List Edit → List Edit) (p q : Pass J)
    : Type 0 where
  pub ready_a : IsReady q.iter_a
  pub ready_b : IsReady q.iter_b
  pub room : volume q ≤ volume p
  pub meaning : outcome sem q ≡ outcome sem p
  pub work : left q < left p

-- The result grows by `out`, which is what the units passed in this round come to.
pub outcome-grow :
    {J : Type 0} (sem : List Edit → List Edit → List Edit) (p q : Pass J) (out : List Edit)
    → units q.result ≡ units p.result ++ out
    → sem (todo p.iter_a) (todo p.iter_b) ≡ out ++ sem (todo q.iter_a) (todo q.iter_b)
    → outcome sem q ≡ outcome sem p
outcome-grow sem p q out e s =
    ap (λ us. us ++ sem (todo q.iter_a) (todo q.iter_b)) e
    ∙ append_assoc (units p.result) out _
    ∙ ap (◌++◌ (units p.result)) (sym s)

module _ {J : Type 0} (json : JsonOps J) where
  todo-done_lem :
      (rest : Operation J) (o : ℕ)
      → has_next json (record { rest = rest; offset = o }) ≡ false
      → ahead rest o ≡ []
  unfolding has_next
  todo-done_lem [] o h = refl
  todo-done_lem (c ∷ rest) o h = cc

  todo-done : (it : OpIterator J) → has_next json it ≡ false → todo it ≡ []
  todo-done it = todo-done_lem it.rest it.offset

  outcome-done :
      (sem : List Edit → List Edit → List Edit) (p : Pass J)
      → sem [] [] ≡ []
      → more json p ≡ false
      → units p.result ≡ outcome sem p
  unfolding more
  outcome-done sem p stop h = sym (
      ap (◌++◌ (units p.result))
        (ap₂ sem (todo-done p.iter_a (ground arith)) (todo-done p.iter_b (ground arith)) ∙ stop)
      ∙ append-nil (units p.result))

module _ {J : Type 0} (json : JsonOps J) (sem : List Edit → List Edit → List Edit)
    (pass : Pass J → Pass J)
    (round : (p : Pass J) → IsSound p → more json p ≡ true → Round sem p (pass p))
    (stop : sem [] [] ≡ []) where
  -- With as many rounds as components the loop ends by its test.
  pub loop_ends :
      (fuel : ℕ) (p : Pass J)
      → IsSound p
      → left p < fuel
      → (r : Operation J) × (loop json pass fuel p ≡ some r) × (units r ≡ outcome sem p)
  unfolding loop
  loop_ends zero p s h = absurd (omega arith)
  loop_ends (suc fuel) p s h = elim (Bool-cases (more json p)) [
    | inl q ↦
        let step = round p s q in
        let (r, ends, same) =
          loop_ends fuel (pass p)
            (record {
              ready_a = step.ready_a;
              ready_b = step.ready_b;
              room = omega (arith, step.room, s.room);
            })
            (omega (arith, step.work)) in
        (r, rw (q, loop) ends, same ∙ step.meaning)
    | inr q ↦ (p.result, rw (q, loop), outcome-done json sem p stop q)
  ]

-- A round that passes `out` on: enough room for the emitter, and fewer components left.
pub Round-of :
    {J : Type 0} (sem : List Edit → List Edit → List Edit) (p q : Pass J) (out : List Edit)
    → IsSound p
    → IsReady q.iter_a
    → IsReady q.iter_b
    → length out + length (todo q.iter_a) + length (todo q.iter_b)
      ≤ length (todo p.iter_a) + length (todo p.iter_b)
    → (length (units p.result) + length out < u32_mod → units q.result ≡ units p.result ++ out)
    → sem (todo p.iter_a) (todo p.iter_b) ≡ out ++ sem (todo q.iter_a) (todo q.iter_b)
    → left q < left p
    → Round sem p q
Round-of sem p q out s ra rb v emit e w =
    let grown = emit (omega (arith, s.room, v)) in
    record {
      ready_a = ra;
      ready_b = rb;
      room = omega (arith, v, ap length grown, length-append (units p.result) out);
      meaning = outcome-grow sem p q out grown e;
      work = w;
    }
