-- ===== src/Ot/Correct.antt =====
-- What `transform` and `compose` of src/services/document/ot.cc promise, on documents.
use jdocs.Base.{ℕ, ◌+◌, ◌≤◌, ◌<◌, ◌≡◌, ◌∙◌, ap, List, some, length, u32_mod}
use jdocs.Ot.Operation.{JsonOps, Operation}
use jdocs.Ot.Passes.{transform, compose}
use jdocs.Ot.Units.{units, apply}
use jdocs.Ot.Units.Meaning.{base_length, apply-then, merge, apply-rebase}
use jdocs.Ot.Iterate.{AllGood}
use jdocs.Ot.Rebase.{transform-units}
use jdocs.Ot.Sequence.{compose-units}

module _ {J : Type 0} (json : JsonOps J) where
  -- For two well-formed operations (positive lengths below 2 ^ 32, an insertion as long as its
  -- text) made for the same document, of fewer than 2 ^ 32 units together, `transform` ends. Its
  -- result, applied after the server's operation, gives the document with both edits merged.
  pub transform-merge :
      (client server : Operation J) (doc : List ℕ)
      → AllGood client
      → AllGood server
      → length (units client) + length (units server) < u32_mod
      → base_length (units client) ≤ length doc
      → base_length (units server) ≤ length doc
      → (r : Operation J) × (transform json client server ≡ some r)
        × (apply (units r) (apply (units server) doc) ≡ merge (units client) (units server) doc)
  transform-merge client server doc ga gb room hc hs =
      let (r, ends, e) = transform-units json client server ga gb room in
      (
        r,
        ends,
        ap (λ us. apply us (apply (units server) doc)) e
            ∙ apply-rebase (units client) (units server) doc hc hs,
      )

  -- For two well-formed operations of fewer than 2 ^ 32 units together, the first of them no longer
  -- than the document, `compose` ends, and its result does to the document what the two do one
  -- after the other.
  pub compose-apply :
      (op_old op_new : Operation J) (doc : List ℕ)
      → AllGood op_old
      → AllGood op_new
      → length (units op_old) + length (units op_new) < u32_mod
      → base_length (units op_old) ≤ length doc
      → (r : Operation J) × (compose json op_old op_new ≡ some r)
        × (apply (units r) doc ≡ apply (units op_new) (apply (units op_old) doc))
  compose-apply op_old op_new doc ga gb room h =
      let (r, ends, e) = compose-units json op_old op_new ga gb room in
      (r, ends, ap (λ us. apply us doc) e ∙ apply-then (units op_old) (units op_new) doc h)
