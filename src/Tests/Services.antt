-- ===== src/Tests/Services.antt =====
-- The handlers of src/services/document/document_service.cc on a document with two users.
use jdocs.Base.{ℕ, ◌≡◌, refl, List, [], ◌∷◌, some}
use jdocs.Ot.Operation.{Operation, insert_component, op_insert, peek, next}
use jdocs.Ot.Passes.{compose, more}
use jdocs.Document.{UserNode, Document, Applied, apply_op}
use jdocs.Service.Defs.{
  DocOpType, DocMsg, Text, Connection, Handled, edit_handle, answer_edit, close_handle,
  join_document,
}
use jdocs.Service.Heard.{times_in, conn_of}
use jdocs.Service.Broadcast.{
  IsBroadcast, close_handle-IsBroadcast, join_document-IsBroadcast, edit_handle-IsBroadcast,
}
use jdocs.Tests.Editing.{no_json}

abbrev alice : Connection
alice = record { conn_id = 10; user_id = 1 }

abbrev carol : Connection
carol = record { conn_id = 30; user_id = 3 }

abbrev others_of_alice : List UserNode
others_of_alice = record { node = 2; conn_id = 20 } ∷ []

abbrev notes : Document (Unit {0})
notes = record {
  name = "notes";
  content = [];
  revision = 0;
  min_revision = 0;
  capacity = 50;
  history = [];
  users = record { node = 1; conn_id = 10 } ∷ others_of_alice;
}

types_x : Operation (Unit {0})
unfolding insert_component
types_x = insert_component no_json (b'x' ∷ []) tt ∷ []

edit : (version : ℕ) → DocMsg (Unit {0})
edit version = record {
  type = DocOpType.edit_type;
  version = version;
  user_id = 0;
  doc_name = "";
  ops = types_x;
}

applied : Applied (Unit {0})
applied = record {
  version = 1;
  returned = types_x;
  document = record notes { content = types_x; revision = 1; history = types_x ∷ [] };
}

edit_applies : apply_op no_json notes 0 types_x ≡ some applied
unfolding applied apply_op types_x compose more peek next op_insert
edit_applies = refl

edit_handle-IsBroadcast_example :
    (h : Handled (Unit {0})) × (edit_handle no_json alice (some notes) (edit 0) ≡ some h)
    × (h.reply ≡ Text.ack_text 1)
    × (h.left ≡ some applied.document)
    × IsBroadcast alice notes.users (Text.op_text 1 1 types_x) h.context h.receivers
unfolding times_in edit applied
edit_handle-IsBroadcast_example =
    edit_handle-IsBroadcast no_json alice notes (edit 0) applied refl edit_applies

-- An edit for a version to come is acknowledged, and is lost.
lost :
    (edit_handle no_json alice (some notes) (edit 5))
    ≡ some (answer_edit alice (edit 5) (record { version = 5; returned = []; document = notes }))
unfolding edit edit_handle apply_op
lost = refl

close_handle-IsBroadcast_example :
    let h = close_handle alice (some notes) 1 (edit 0) in
    IsBroadcast alice notes.users
      (Text.notify_text 1 "a user close the document.")
      h.context
      h.receivers
unfolding times_in conn_of
close_handle-IsBroadcast_example = close_handle-IsBroadcast alice notes 1 (edit 0) refl refl

join_document-IsBroadcast_example :
    let h = join_document carol notes 3 (edit 0) in
    IsBroadcast carol notes.users (Text.notify_text 3 "new user join.") h.context h.receivers
unfolding times_in
join_document-IsBroadcast_example = join_document-IsBroadcast carol notes 3 (edit 0) refl
