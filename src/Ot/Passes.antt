-- ===== src/Ot/Passes.antt =====
-- The loops of `transform` and `compose` in src/services/document/ot.cc. A round of a loop is a
-- function on the result so far and the two iterators; the loop runs on fuel, and `none` says that
-- the fuel ran out.
use jdocs.Base.{
  ℕ, zero, suc, ◌+◌, min, Bool, true, false, ◌||◌, [], Option, none, some, length, take,
}
use jdocs.Ot.Operation.{
  retain, insert, delete, JsonOps, OpComponent, Operation, OpIterator, compose_attributes,
  op_retain, op_insert, op_delete, iterator, has_next, peek, next,
}

pub record Pass (J : Type 0) : Type 0 where
  pub result : Operation J
  pub iter_a : OpIterator J
  pub iter_b : OpIterator J

module _ {J : Type 0} (json : JsonOps J) where
  unfoldable pub transform_rest : Pass J → OpComponent J → OpComponent J → Pass J
  transform_rest p op_a op_b =
      let min_len = min op_a.length op_b.length in
      let emitted : Operation J = elim op_a.type [
        | retain ↦ elim op_b.type [
          | retain ↦ op_retain json p.result min_len op_a.attributes
          | _ ↦ p.result
        ]
        | delete ↦ elim op_b.type [ retain ↦ op_delete json p.result min_len | _ ↦ p.result ]
        | insert ↦ p.result
      ] in
      record {
        result = emitted;
        iter_a = next json p.iter_a min_len;
        iter_b = next json p.iter_b min_len;
      }

  unfoldable pub transform_pass : Pass J → Pass J
  unfolding transform_rest
  transform_pass p =
      let op_a = peek json p.iter_a in
      let op_b = peek json p.iter_b in
      elim op_b.type [
        | insert ↦ record p {
          result = op_retain json p.result op_b.length json.null;
          iter_b = next json p.iter_b op_b.length;
        }
        | _ ↦ elim op_a.type [
          | insert ↦ record p {
            result = op_insert json p.result op_a.text op_a.attributes;
            iter_a = next json p.iter_a op_a.length;
          }
          | _ ↦ transform_rest p op_a op_b
        ]
      ]

  unfoldable pub compose_rest : Pass J → OpComponent J → OpComponent J → Pass J
  compose_rest p comp_a comp_b =
      let min_len = min comp_a.length comp_b.length in
      let attr = compose_attributes json comp_b.attributes comp_a.attributes in
      let emitted : Operation J = elim comp_a.type [
        | insert ↦ elim comp_b.type [
          | retain ↦ op_insert json p.result (take min_len comp_a.text) attr
          | _ ↦ p.result
        ]
        | retain ↦ elim comp_b.type [
          | delete ↦ op_delete json p.result min_len
          | retain ↦ op_retain json p.result min_len attr
          | insert ↦ p.result
        ]
        | delete ↦ p.result
      ] in
      record {
        result = emitted;
        iter_a = next json p.iter_a min_len;
        iter_b = next json p.iter_b min_len;
      }

  unfoldable pub compose_pass : Pass J → Pass J
  unfolding compose_rest
  compose_pass p =
      let comp_a = peek json p.iter_a in
      let comp_b = peek json p.iter_b in
      elim comp_b.type [
        | insert ↦ record p {
          result = op_insert json p.result comp_b.text comp_b.attributes;
          iter_b = next json p.iter_b comp_b.length;
        }
        | _ ↦ elim comp_a.type [
          | delete ↦ record p {
            result = op_delete json p.result comp_a.length;
            iter_a = next json p.iter_a comp_a.length;
          }
          | _ ↦ compose_rest p comp_a comp_b
        ]
      ]

  unfoldable pub more : Pass J → Bool
  unfolding has_next
  more p = has_next json p.iter_a || has_next json p.iter_b

  unfoldable pub loop : (Pass J → Pass J) → ℕ → Pass J → Option (Operation J)
  loop pass zero p = none
  loop pass (suc fuel) p = elim (more p) [ false ↦ some p.result | true ↦ loop pass fuel (pass p) ]

  unfoldable pub start : Operation J → Operation J → Pass J
  unfolding iterator
  start a b = record { result = []; iter_a = iterator json a; iter_b = iterator json b }

  -- A round ends at least one component, so this many rounds are enough.
  abbrev pub rounds : Operation J → Operation J → ℕ
  rounds a b = suc (length a + length b)

  unfoldable pub transform : (client server : Operation J) → Option (Operation J)
  unfolding transform_pass loop start
  transform client server = loop transform_pass (rounds client server) (start client server)

  unfoldable pub compose : (op_old op_new : Operation J) → Option (Operation J)
  unfolding compose_pass loop start
  compose op_old op_new = loop compose_pass (rounds op_old op_new) (start op_old op_new)
