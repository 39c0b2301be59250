-- ===== src/Service/Broadcast.antt =====
-- The contexts that src/services/document/document_service.cc sends, and the connections that get them.
use Prim.Native.String.{String}
use mathlib.Core.Option.{some-injective}
use jdocs.Base.{
  subst, if_true, if_false, ℕ, ◌-◌, ◌≡◌, refl, sym, ap, ◌∙◌, ◌||◌, Bool-cases, inl, inr, List, [],
  ◌∷◌, Option, none, some, arith, length, leb, ltb, ◌==◌, if◌then◌else◌, bind-some,
}
use jdocs.Ot.Operation.{JsonOps, Operation}
use jdocs.Ot.Passes.{compose}
use jdocs.Document.{
  catch_up, UserNode, Document, Applied, apply_op, push_to_history, join_user, exit_user,
  erase_node,
}
use jdocs.Service.Defs.{
  DocMsg, Text, Connection, Context, Handled, others, to_json, send_to, edit_handle, answer_edit,
  close_handle, join_document,
}
use jdocs.Service.Heard.{
  times_in, length-others, times_to, once_more, others-heard, others-if_several,
  erase_node-times_in, one_less, without_own, conn_of,
}

-- A message of the connection goes to each other connection as often as it is among the users, and to
-- itself never. Its context has one reference for each of these, and there is none if nobody gets it.
pub record IsBroadcast {J : Type 0} (c : Connection) (users : List UserNode) (message : Text J)
    (context : Option (Context J)) (receivers : List ℕ) : Type 0 where
  pub heard : (x : ℕ) → times_to x receivers ≡ (if x == c.conn_id then 0 else times_in x users)
  pub sent : context ≡ (
      if length receivers == 0
      then none
      else some (record { ref_count = length receivers; sender = c.conn_id; message = message }))

module _ {J : Type 0} where
  send_to-count :
      (c : Connection) (count : ℕ) (message : Text J) (rs : List ℕ)
      → count ≡ length rs
      → send_to c count message ≡ (
          if length rs == 0
          then none
          else some (record { ref_count = length rs; sender = c.conn_id; message = message }))
  unfolding send_to
  send_to-count c count message rs e =
      ap (λ n. send_to c n message) e ∙ elim (Bool-cases (length rs == 0)) [
        | inl empty ↦ rw empty (if_false (ltb 0 (length rs)) _ _ (ground (arith, empty)))
        | inr full ↦ rw full (if_true (ltb 0 (length rs)) _ _ (ground (arith, full)))
      ]

  -- The broadcast of a handler to all users but its own connection, which is among them once.
  others-IsBroadcast :
      (c : Connection) (us : List UserNode) (message : Text J)
      → times_in c.conn_id us ≡ 1
      → IsBroadcast c us message
          (send_to c (length us - 1) message)
          (if ltb 1 (length us) then others c.conn_id us else [])
  others-IsBroadcast c us message once =
      let size = length-others c.conn_id us in
      let rs = others c.conn_id us in
      let same = others-if_several us rs (omega (arith, size, once)) in
      subst (IsBroadcast c us message (send_to c (length us - 1) message)) (sym same) (record {
        heard = others-heard c.conn_id us;
        sent = send_to-count c (length us - 1) message rs (omega (arith, size, once));
      })

  -- A user has the session's node and connection, and the connection is in the list once. When the session
  -- closes the document, the notification goes to each other user once for each of its places in the list,
  -- and to nobody else, in one context with as many references. There is no context if nobody remains.
  pub close_handle-IsBroadcast :
      (c : Connection) (d : Document J) (node : ℕ) (msg : DocMsg J)
      → conn_of node d.users ≡ some c.conn_id
      → times_in c.conn_id d.users ≡ 1
      → let h = close_handle c (some d) node msg in
        IsBroadcast c d.users
          (Text.notify_text c.user_id "a user close the document.")
          h.context
          h.receivers
  unfolding close_handle to_json exit_user
  close_handle-IsBroadcast c d node msg own once =
      let us = erase_node node d.users in
      let size = length-others c.conn_id us in
      let gone : times_in c.conn_id us ≡ 0 =
        one_less c.conn_id (times_in c.conn_id us)
          (erase_node-times_in node c.conn_id d.users c.conn_id own ∙ once) in
      record {
        heard = λ x.
            others-heard c.conn_id us x
            ∙ without_own x (times_in x us) (times_in x d.users) c.conn_id
                (erase_node-times_in node c.conn_id d.users x own);
        sent = send_to-count c (length us) _ (others c.conn_id us) (omega (arith, size, gone));
      }

  -- A connection that is not in the user list joins: the notification goes to each user who was there
  -- once for each of its places in the list, and to nobody else, in one context with as many references.
  -- There is no context if nobody was there.
  pub join_document-IsBroadcast :
      (c : Connection) (d : Document J) (fresh : ℕ) (msg : DocMsg J)
      → times_in c.conn_id d.users ≡ 0
      → let h = join_document c d fresh msg in
        IsBroadcast c d.users (Text.notify_text c.user_id "new user join.") h.context h.receivers
  unfolding join_document join_user to_json times_in
  join_document-IsBroadcast c d fresh msg absent =
      let own : UserNode = record { node = fresh; conn_id = c.conn_id } in
      let once : times_in c.conn_id (own ∷ d.users) ≡ 1 = once_more c d.users fresh absent in
      let b =
        others-IsBroadcast c (own ∷ d.users) (Text.notify_text c.user_id "new user join.") once in
      record { heard = λ x. b.heard x ∙ ground arith; sent = b.sent }

-- The name and the users, which an edit leaves as they are.
abbrev pub frame : {J : Type 0} → Document J → String × List UserNode
frame d = (d.name, d.users)

push_to_history-frame :
    {J : Type 0} (d : Document J) (op : Operation J) → frame (push_to_history d op) ≡ frame d
unfolding push_to_history
push_to_history-frame d op = elim (Bool-cases (leb d.capacity (length d.history))) [
  | inl full ↦ rw full refl
  | inr room ↦ rw room refl
]

module _ {J : Type 0} (json : JsonOps J) where
  pub apply_op-frame :
      (d : Document J) (version : ℕ) (client : Operation J) {r : Applied J}
      → apply_op json d version client ≡ some r
      → frame r.document ≡ frame d
  unfolding apply_op
  apply_op-frame d version client h =
      elim (Bool-cases (ltb version d.min_revision || ltb d.revision version)) [
        | inl unknown ↦
            let e = rw unknown at h in
            sym (ap (λ (a : Applied J). frame a.document) (some-injective _ _ e))
        | inr known ↦
            let passed = rw known at h in
            let ((_, moved), _, later) =
              bind-some (catch_up json d (d.revision - version) version client) _ passed in
            let (content, _, e) = bind-some (compose json d.content moved) _ later in
            sym (ap (λ (a : Applied J). frame a.document) (some-injective _ _ e))
            ∙ push_to_history-frame _ moved
      ]

  apply_op-users :
      (d : Document J) (version : ℕ) (client : Operation J) {r : Applied J}
      → apply_op json d version client ≡ some r
      → r.document.users ≡ d.users
  apply_op-users d version client h = ap (λ p. p.1) (apply_op-frame d version client h)

  -- A user whose connection is once in the list edits the document, and ApplyOp returns: the handler
  -- returns too, leaves the document that ApplyOp leaves, acknowledges the edit, and sends the operation
  -- that ApplyOp returns, with its version, to each other user once for each of its places in the list,
  -- and to nobody else, in one context with as many references.
  pub edit_handle-IsBroadcast :
      (c : Connection) (d : Document J) (msg : DocMsg J) (a : Applied J)
      → times_in c.conn_id d.users ≡ 1
      → apply_op json d msg.version msg.ops ≡ some a
      → (h : Handled J) × (edit_handle json c (some d) msg ≡ some h)
        × (h.reply ≡ Text.ack_text c.user_id)
        × (h.left ≡ some a.document)
        × IsBroadcast c d.users (Text.op_text a.version c.user_id a.returned) h.context h.receivers
  unfolding edit_handle answer_edit to_json
  edit_handle-IsBroadcast c d msg a once e =
      let kept = apply_op-users d msg.version msg.ops e in
      let message = Text.op_text a.version c.user_id a.returned in
      let us = a.document.users in
      let once' : times_in c.conn_id us ≡ 1 = ap (times_in c.conn_id) kept ∙ once in
      let b = others-IsBroadcast c us message once' in
      (
        answer_edit c msg a,
        rw e refl,
        refl,
        refl,
        record {
          heard = λ x. b.heard x ∙ ap (λ vs. if x == c.conn_id then 0 else times_in x vs) kept;
          sent = b.sent;
        },
      )
