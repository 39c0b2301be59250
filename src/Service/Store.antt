-- ===== src/Service/Store.antt =====
-- The table of documents of src/services/document/document_service.cc and the sessions that own documents.
-- A document stands at an address. A session is a DocumentService: `held` has the address in its
-- `document_`, and its node in a user list is numbered like the session. A shared pointer counts for each
-- session that holds it, and the table's weak pointers do not count.
use Prim.Native.String.{String}
use text.Mathlib.Text.{◌==◌ as str_eq}
use jdocs.Base.{ℕ, ◌+◌, Bool, true, false, Option, none, some, ltb, ◌==◌, if◌then◌else◌, ◌>>=◌}
use jdocs.Bitmap.Count.{count_below}
use jdocs.Ot.Operation.{JsonOps}
use jdocs.Document.{Document, new_document, exit_user}
use jdocs.Service.Defs.{
  open_type, edit_type, close_type, DocMsg, bad_request, Connection, Handled, refused, close_handle,
  join_document, edit_handle,
}

pub record World (J : Type 0) : Type 0 where
  pub documents : String → Option ℕ
  pub docs : ℕ → Document J
  pub allocated : ℕ
  pub sessions : ℕ
  pub held : ℕ → Option ℕ

abbrev pub holds : Option ℕ → ℕ → Bool
holds none a = false
holds (some b) a = b == a

module _ {J : Type 0} where
  -- No document is open.
  abbrev pub new_world : (sessions : ℕ) → World J
  new_world sessions = record {
    documents = λ name. none;
    docs = λ a. new_document "";
    allocated = 0;
    sessions = sessions;
    held = λ i. none;
  }

  -- The number of shared pointers to a document.
  unfoldable pub use_count : World J → ℕ → ℕ
  unfolding count_below
  use_count w a = count_below (λ i. holds (w.held i) a) w.sessions

  abbrev pub set_held : World J → (session : ℕ) → Option ℕ → World J
  set_held w i p = record w { held = λ j. if i == j then p else w.held j }

  abbrev pub set_doc : World J → (address : ℕ) → Document J → World J
  set_doc w a d = record w { docs = λ b. if a == b then d else w.docs b }

  abbrev pub set_entry : World J → String → Option ℕ → World J
  set_entry w name p = record w { documents = λ n. if str_eq name n then p else w.documents n }

  -- `weak_ptr::lock`.
  unfoldable pub lock : World J → ℕ → Option ℕ
  unfolding use_count
  lock w a = if ltb 0 (use_count w a) then some a else none

  unfoldable pub get_document : World J → String → Option ℕ
  unfolding lock
  get_document w name = elim (w.documents name) [ none ↦ none | some a ↦ lock w a ]

  -- What OpenDocument leaves and returns.
  unfoldable pub open_document : World J → String → World J × Option ℕ
  unfolding lock
  open_document w name = elim (w.documents name) [
    | some a ↦ (w, lock w a)
    | none ↦ (
      record (set_entry (set_doc w w.allocated (new_document name)) name (some w.allocated)) {
        allocated = w.allocated + 1;
      },
      some w.allocated,
    )
  ]

  unfoldable pub close_document : World J → String → World J × Bool
  unfolding use_count
  close_document w name = elim (w.documents name) [
    | none ↦ (w, false)
    | some a ↦ if use_count w a == 1 then (set_entry w name none, true) else (w, false)
  ]

  -- ExitUser of the document at `a`, with the call of CloseDocument.
  unfoldable pub exit_document : World J → (session a : ℕ) → World J
  unfolding close_document
  exit_document w i a =
      let (left, closing) = exit_user (w.docs a) i in
      let w' = set_doc w a left in if closing then (close_document w' left.name).0 else w'

  -- The first lines of open_handle.
  unfoldable pub leave_held : World J → (session : ℕ) → World J
  unfolding exit_document
  leave_held w i = elim (w.held i) [ none ↦ w | some a ↦ exit_document w i a ]

  -- `document_` gets what GetDocument has found, and if that is null, what OpenDocument returns.
  unfoldable pub take_document : World J → (session : ℕ) → String → Option ℕ → World J
  unfolding open_document
  take_document w i name (some a) = set_held w i (some a)
  take_document w i name none =
      let (opened, p) = open_document (set_held w i none) name in set_held opened i p

  unfoldable pub look_up : World J → (session : ℕ) → String → World J
  unfolding get_document take_document
  look_up w i name = take_document w i name (get_document w name)

  -- The rest of open_handle; `none` is a call through a null pointer.
  unfoldable pub join_held :
      World J → Connection → (session : ℕ) → DocMsg J → Option (World J × Handled J)
  join_held w c i msg = elim (w.held i) [
    | none ↦ none
    | some a ↦
        let h = join_document c (w.docs a) i msg in
        some (elim h.left [ none ↦ w | some d ↦ set_doc w a d ], h)
  ]

  unfoldable pub open_handle :
      World J → Connection → (session : ℕ) → DocMsg J → Option (World J × Handled J)
  unfolding leave_held look_up join_held
  open_handle w c i msg = join_held (look_up (leave_held w i) i msg.doc_name) c i msg

  -- close_handle and the destructor.
  unfoldable pub close_held : World J → Connection → (session : ℕ) → DocMsg J → World J × Handled J
  unfolding exit_document
  close_held w c i msg = elim (w.held i) [
    | none ↦ (w, close_handle c none i msg)
    | some a ↦ (set_held (exit_document w i a) i none, close_handle c (some (w.docs a)) i msg)
  ]

module _ {J : Type 0} (json : JsonOps J) where
  unfoldable pub edit_held :
      World J → Connection → (session : ℕ) → DocMsg J → Option (World J × Handled J)
  edit_held w c i msg = elim (w.held i) [
    | none ↦ do h ← edit_handle json c none msg; some (w, h)
    | some a ↦ do
      h ← edit_handle json c (some (w.docs a)) msg
      some (elim h.left [ none ↦ w | some d ↦ set_doc w a d ], h)
  ]

  -- `handle`: `none` for the message stands for an exception of the parser. The exceptions of `dump`, for
  -- text that is not UTF-8, belong to the conversion to JSON: they come after the changes, which stay, and the
  -- code answers them with `bad_request`.
  unfoldable pub handle :
      World J → Connection → (session : ℕ) → Option (DocMsg J) → Option (World J × Handled J)
  unfolding open_handle edit_held close_held
  handle w c i none = some (w, refused bad_request)
  handle w c i (some msg) = elim msg.type [
    | open_type ↦ open_handle w c i msg
    | edit_type ↦ edit_held w c i msg
    | close_type ↦ some (close_held w c i msg)
    | _ ↦ some (w, refused bad_request)
  ]
