-- ===== src/Service/Defs.antt =====
-- `DocumentService` of src/services/document/document_service.h and document_service.cc, from a parsed
-- message to the reply. A handler is one step. What it does to the connection and the document is its
-- result. The static table of documents is in Service/Store.
use Prim.Native.String.{String}
use jdocs.Base.{
  ℕ, ◌-◌, Bool, false, List, [], ◌∷◌, Option, none, some, length, ltb, ◌==◌, if◌then◌else◌, ◌>>=◌,
}
use jdocs.Ot.Operation.{JsonOps, Operation}
use jdocs.Document.{UserNode, Document, Applied, apply_op, join_user, exit_user}

-- DocOpType; `open` is a word of the language.
pub data DocOpType : Type 0 where
  unknow_type open_type edit_type close_type ack_type notify_type op_type : DocOpType

pub record DocMsg (J : Type 0) : Type 0 where
  pub type : DocOpType
  pub version : ℕ
  pub user_id : ℕ
  pub doc_name : String
  pub ops : Operation J

-- The texts that are sent: those of to_json, and the fixed ones.
pub data Text (J : Type 0) : Type 0 where
  open_text : (version : ℕ) → Operation J → Text J
  ack_text : (user_id : ℕ) → Text J
  notify_text : (user_id : ℕ) (message : String) → Text J
  op_text : (version user_id : ℕ) → Operation J → Text J
  internal_error : Text J
  no_document_open : Text J
  close_successfully : Text J
  bad_request : Text J

pub record Connection : Type 0 where
  pub conn_id : ℕ
  pub user_id : ℕ

-- `CTContext`, with what the connections do that get it.
pub record Context (J : Type 0) : Type 0 where
  pub ref_count : ℕ
  pub sender : ℕ
  pub message : Text J

-- What a handler returns and leaves: the text for its own connection, `document_`, the document that it
-- has worked on, whether CloseDocument is called, the context that is sent and the connections that get it.
pub record Handled (J : Type 0) : Type 0 where
  pub reply : Text J
  pub document : Option (Document J)
  pub left : Option (Document J)
  pub closes : Bool
  pub context : Option (Context J)
  pub receivers : List ℕ

-- `for (const auto conn_id : users) if (conn_id != connection_->conn_id())`.
unfoldable pub others : (conn_id : ℕ) → List UserNode → List ℕ
others conn_id [] = []
others conn_id (u ∷ us) =
    let rest = others conn_id us in if u.conn_id == conn_id then rest else u.conn_id ∷ rest

module _ {J : Type 0} where
  unfoldable pub to_json : DocMsg J → Text J
  to_json msg = elim msg.type [
    | open_type ↦ open_text msg.version msg.ops
    | ack_type ↦ ack_text msg.user_id
    | notify_type ↦ notify_text msg.user_id msg.doc_name
    | op_type ↦ op_text msg.version msg.user_id msg.ops
    | _ ↦ internal_error
  ]

  abbrev pub refused : Text J → Handled J
  refused reply = record {
    reply = reply;
    document = none;
    left = none;
    closes = false;
    context = none;
    receivers = [];
  }

  -- A context for `count` receivers, unless there are none.
  unfoldable pub send_to : Connection → (count : ℕ) → Text J → Option (Context J)
  send_to c count message =
      if ltb 0 count
      then some (record { ref_count = count; sender = c.conn_id; message = message })
      else none

  unfoldable pub close_handle : Connection → Option (Document J) → (node : ℕ) → DocMsg J → Handled J
  unfolding others to_json send_to
  close_handle c none node msg = refused no_document_open
  close_handle c (some d) node msg =
      let (left, closing) = exit_user d node in
      let users = left.users in
      let note : DocMsg J = record msg {
        type = notify_type;
        user_id = c.user_id;
        doc_name = "a user close the document.";
      } in
      record {
        reply = close_successfully;
        document = none;
        left = some left;
        closes = closing;
        context = send_to c (length users) (to_json note);
        receivers = others c.conn_id users;
      }

  -- open_handle from JoinUser on, with the document that the lookups give.
  unfoldable pub join_document : Connection → Document J → (fresh : ℕ) → DocMsg J → Handled J
  unfolding others to_json send_to
  join_document c d fresh msg =
      let joined = join_user d fresh c.conn_id in
      let users = joined.users in
      let note : DocMsg J = record {
        type = notify_type;
        version = 0;
        user_id = c.user_id;
        doc_name = "new user join.";
        ops = [];
      } in
      let answer : DocMsg J = record msg { version = joined.revision; ops = joined.content } in
      record {
        reply = to_json answer;
        document = some joined;
        left = some joined;
        closes = false;
        context = send_to c (length users - 1) (to_json note);
        receivers = if ltb 1 (length users) then others c.conn_id users else [];
      }

  -- edit_handle behind ApplyOp.
  unfoldable pub answer_edit : Connection → DocMsg J → Applied J → Handled J
  unfolding others to_json send_to
  answer_edit c msg a =
      let users = a.document.users in
      let edited : DocMsg J = record msg {
        version = a.version;
        user_id = c.user_id;
        ops = a.returned;
      } in
      record {
        reply = to_json (record edited { type = ack_type });
        document = some a.document;
        left = some a.document;
        closes = false;
        context = send_to c (length users - 1) (to_json (record edited { type = op_type }));
        receivers = if ltb 1 (length users) then others c.conn_id users else [];
      }

unfoldable pub edit_handle :
    {J : Type 0} (json : JsonOps J)
    → Connection
    → Option (Document J)
    → DocMsg J
    → Option (Handled J)
edit_handle json c none msg = some (refused no_document_open)
edit_handle json c (some d) msg = do
  a ← apply_op json d msg.version msg.ops
  some (answer_edit c msg a)
