-- ===== src/Document/Convergence.antt =====
-- What `Document::ApplyOp` in src/services/document/document.cc makes of an operation that was made
-- for an older revision.
use jdocs.Base.{
  ℕ, suc, ◌+◌, ◌-◌, ◌%◌, ◌≤◌, ◌<◌, ◌≡◌, refl, ap, ◌∙◌, List, [], ◌∷◌, some, arith, length,
  length-drop, drop, drop-cons, u32_mod,
}
use jdocs.Ot.Operation.{JsonOps, Operation}
use jdocs.Ot.Passes.{transform}
use jdocs.Ot.Units.{Edit, units, then_units, rebase_units}
use jdocs.Ot.Iterate.{AllGood}
use jdocs.Ot.Rebase.{transform-units}
use jdocs.Ot.Sequence.{compose-units}
use jdocs.Document.Defs.{Document, Applied, u64_mod, push_to_history, catch_up, apply_op}
use jdocs.Document.Revisions.{IsConsistent, IsKnown, accepts}

-- Over all later operations, the oldest first.
abbrev pub rebase_all : {J : Type 0} → List Edit → List (Operation J) → List Edit
rebase_all us [] = us
rebase_all us (h ∷ later) = rebase_all (rebase_units us (units h)) later

push_to_history_content :
    {J : Type 0} (d : Document J) (op : Operation J) → (push_to_history d op).content ≡ d.content
unfolding push_to_history
push_to_history_content d op = ground arith

module _ {J : Type 0} (json : JsonOps J) where
  -- Every operation that `catch_up` meets on its way is well-formed, and small enough with the next one.
  unfoldable pub Rebasable : Operation J → List (Operation J) → Type 0
  Rebasable client [] = AllGood client
  Rebasable client (h ∷ later) =
      AllGood client
      × AllGood h
      × (length (units client) + length (units h) < u32_mod)
      × ((moved : Operation J) → transform json client h ≡ some moved → Rebasable moved later)

  catch_up-units :
      (d : Document J) (later : List (Operation J)) (version : ℕ) (client : Operation J)
      → d.min_revision ≤ version
      → drop (version - d.min_revision) d.history ≡ later
      → Rebasable client later
      → (v : ℕ) × (moved : Operation J) × (catch_up json d (length later) version client
          ≡ some (v, moved))
        × AllGood moved
        × (units moved ≡ rebase_all (units client) later)
  unfolding catch_up Rebasable
  catch_up-units d [] version client h e g = (version, client, refl, g, refl)
  catch_up-units d (op ∷ later) version client h e (gc, go, room, next) =
      let (found, rest) = drop-cons (version - d.min_revision) d.history e in
      let (moved, t, u) = transform-units json client op gc go room in
      let shifted : version + 1 - d.min_revision ≡ suc (version - d.min_revision) =
        omega (arith, h) in
      let (v, final, done, good, same) =
        catch_up-units d later (version + 1) moved (omega arith) (rw shifted rest) (next moved t) in
      (v, final, rw (found, t) done, good, same ∙ ap (λ us. rebase_all us later) u)

  -- An operation for a version that a consistent document knows. A component is well-formed when its length
  -- is positive and fits in 32 bits, and an insertion's is that of its text. Let all components be well-formed
  -- in the document's content, in the client's operation, in the operations later than its version and in
  -- the client's operation moved over each of these in turn, and let their units together, at each step and
  -- at the end, be fewer than 2 ^ 32. Then `ApplyOp` returns. The operation returned is the client's, moved
  -- over all later operations in order, and the new content is the old content with the returned operation
  -- applied to it. Nothing is said about the components of the new content: `compose` can leave an insertion
  -- whose length is not that of its text.
  pub apply_op-rebases :
      (d : Document J) (version : ℕ) (client : Operation J)
      → IsConsistent d
      → IsKnown d version
      → Rebasable client (drop (version - d.min_revision) d.history)
      → AllGood d.content
      → length (units d.content)
          + length (rebase_all (units client) (drop (version - d.min_revision) d.history))
        < u32_mod
      → (r : Applied J) × (apply_op json d version client ≡ some r)
        × (units r.returned ≡ rebase_all (units client) (drop (version - d.min_revision) d.history))
        × (units r.document.content ≡ then_units (units d.content) (units r.returned))
  unfolding apply_op
  apply_op-rebases d version client k v g good room =
      let later = drop (version - d.min_revision) d.history in
      let n : length later ≡ d.revision - version =
        omega (arith, length-drop (version - d.min_revision) d.history, k.spans) in
      let (_, moved, done, gm, same) = catch_up-units d later version client v.0 refl g in
      let (content, e, u) =
        compose-units json d.content moved good gm (omega (arith, room, ap length same)) in
      (
        record {
          version = (d.revision + 1) % u64_mod;
          returned = moved;
          document = push_to_history (committed content) moved;
        },
        rw (accepts json d version v, rw n at done, e),
        same,
        ap units (push_to_history_content (committed content) moved) ∙ u,
      )
    where
      committed : Operation J → Document J
      committed content = record d { revision = (d.revision + 1) % u64_mod; content = content }
