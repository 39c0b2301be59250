-- ===== src/Document/Revisions.antt =====
-- The revisions of a document in src/services/document/document.cc.
use Prim.Native.String.{String}
use mathlib.Core.Option.{some-injective}
use jdocs.Base.{
  bind-some, ℕ, ◌+◌, ◌-◌, ◌≤◌, ◌<◌, ◌≡◌, ap, ◌∙◌, ◌⊎◌, List, [], ◌∷◌, some, arith, length,
  length-append, get_elem?, get_elem?-append_length, sym, subst, ◌%◌, tail, false, ltb, ◌||◌,
}
use jdocs.Ot.Operation.{JsonOps, Operation}
use jdocs.Ot.Passes.{compose}
use jdocs.Document.Defs.{
  Document, Applied, u64_mod, new_document, push_to_history, catch_up, apply_op,
}

-- The history holds the operations from `min_revision` up to `revision`, and no more than fit.
pub record IsConsistent {J : Type 0} (d : Document J) : Type 0 where
  pub spans : d.min_revision + length d.history ≡ d.revision
  pub bounded : length d.history ≤ d.capacity
  pub roomy : 0 < d.capacity

-- A version for which the server has every later operation.
abbrev pub IsKnown : {J : Type 0} → Document J → ℕ → Type 0
IsKnown d version = (d.min_revision ≤ version) × (version ≤ d.revision)

length-tail : {A : Type 0} (xs : List A) → length (tail xs) ≡ length xs - 1
length-tail [] = omega arith
length-tail (x ∷ xs) = omega arith

module _ {J : Type 0} where
  pub new_document-IsConsistent : (name : String) → IsConsistent (new_document {J = J} name)
  unfolding new_document
  new_document-IsConsistent name = record {
    spans = omega arith;
    bounded = omega arith;
    roomy = omega arith;
  }

  push_to_history-IsConsistent :
      (d : Document J) (op : Operation J)
      → d.min_revision + length d.history + 1 ≡ d.revision
      → length d.history ≤ d.capacity
      → 0 < d.capacity
      → d.revision < u64_mod
      → IsConsistent (push_to_history d op)
  unfolding push_to_history
  push_to_history-IsConsistent d op e b c w =
      let t = length-tail d.history in
      ground (arith, t, length-append (tail d.history) (op ∷ []), length-append d.history (op ∷ []))

  -- The latest operation stands where `catch_up` looks for it.
  push_to_history_last :
      (d : Document J) (op : Operation J)
      → d.min_revision + length d.history + 1 ≡ d.revision
      → length d.history ≤ d.capacity
      → 0 < d.capacity
      → d.revision < u64_mod
      → let e = push_to_history d op in
        (get_elem? e.history (d.revision - 1 - e.min_revision) ≡ some op)
        × (e.revision ≡ d.revision)
        × (e.content ≡ d.content)
  unfolding push_to_history
  push_to_history_last d op e b c w =
      let t = length-tail d.history in
      ground (
        arith,
        t,
        get_elem?-append_length (tail d.history) op,
        get_elem?-append_length d.history op,
      )

module _ {J : Type 0} (json : JsonOps J) where
  -- A request for a version that the server no longer or not yet knows is turned down: the
  -- document stays as it was, the version too, and the operation returned is empty.
  pub apply_op_rejects :
      (d : Document J) (version : ℕ) (client : Operation J)
      → (version < d.min_revision) ⊎ (d.revision < version)
      → apply_op json d version client
        ≡ some (record { version = version; returned = []; document = d })
  unfolding apply_op
  apply_op_rejects d version client h = ground arith

  pub accepts :
      (d : Document J) (version : ℕ)
      → IsKnown d version
      → (ltb version d.min_revision || ltb d.revision version) ≡ false
  accepts d version h = ground arith

  -- What a request does that goes through.
  pub record Accepted (d : Document J) (r : Applied J) : Type 0 where
    pub consistent : IsConsistent r.document
    pub next_revision : r.document.revision ≡ d.revision + 1
    pub acknowledged : r.version ≡ r.document.revision
    pub composed : compose json d.content r.returned ≡ some r.document.content
    pub recorded :
        get_elem? r.document.history (d.revision - r.document.min_revision) ≡ some r.returned

  accepted :
      (d : Document J) (moved content : Operation J)
      → IsConsistent d
      → d.revision + 1 < u64_mod
      → compose json d.content moved ≡ some content
      → let revision = (d.revision + 1) % u64_mod in
        Accepted d (record {
          version = revision;
          returned = moved;
          document = push_to_history (record d { revision = revision; content = content }) moved;
        })
  accepted d moved content k w e =
      let revision = (d.revision + 1) % u64_mod in
      let n : revision ≡ d.revision + 1 = omega (arith, w) in
      let d' : Document J = record d { revision = revision; content = content } in
      let c =
        push_to_history-IsConsistent d' moved (omega (arith, n, k.spans)) k.bounded k.roomy
          (omega (arith, n, w)) in
      let (last, rev, con) =
        push_to_history_last d' moved (omega (arith, n, k.spans)) k.bounded k.roomy
          (omega (arith, n, w)) in
      record {
        consistent = c;
        next_revision = rev ∙ n;
        acknowledged = sym rev;
        composed = e ∙ ap some (sym con);
        recorded =
            ap
              (λ k.
                get_elem? (push_to_history d' moved).history
                  (k - (push_to_history d' moved).min_revision))
              (omega (arith, n))
            ∙ last;
      }

  -- Every request on a consistent document that returns either leaves it as it was, or makes the
  -- next revision of it: the composed content, the operation in the history, still consistent.
  pub apply_op-Accepted :
      (d : Document J) (version : ℕ) (client : Operation J) {r : Applied J}
      → IsConsistent d
      → d.revision + 1 < u64_mod
      → IsKnown d version
      → apply_op json d version client ≡ some r
      → Accepted d r
  unfolding apply_op
  apply_op-Accepted d version client k w v h =
      let passed = rw (accepts d version v) at h in
      let ((_, moved), _, later) =
        bind-some (catch_up json d (d.revision - version) version client) _ passed in
      let (content, e, same) = bind-some (compose json d.content moved) _ later in
      subst (Accepted d) (some-injective _ _ same) (accepted d moved content k w e)
