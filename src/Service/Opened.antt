-- ===== src/Service/Opened.antt =====
-- open_handle of src/services/document/document_service.cc: what the lookups find, and who joins what.
use jdocs.Base.{
  ==_self, ℕ, ◌<◌, ◌≡◌, refl, sym, ap, ◌∙◌, true, ◌&&◌, Bool-cases, inl, inr, Option, some, arith,
  ◌==◌, ==_iff,
}
use jdocs.Bitmap.Count.{weight}
use jdocs.Document.{join_user}
use jdocs.Service.Defs.{DocOpType, Connection, DocMsg, Handled, Text, join_document, to_json}
use jdocs.Service.Store.{World, holds, set_doc, look_up, join_held, leave_held, open_handle}
use jdocs.Service.Nodes.{node_in}
use jdocs.Service.Sound.{and-false, IsSound, nobody}
use jdocs.Service.Leave.{leave_held-IsSound}
use jdocs.Service.LookUp.{IsReady, look_up-IsReady}

module _ {J : Type 0} (v : World J) (i a conn_id : ℕ) (h : IsReady i a v) where
  abbrev joined : World J
  joined = set_doc v a (join_user (v.docs a) i conn_id)

  mine : (j b : ℕ) → (i == j) ≡ true → holds (v.held j) b ≡ (a == b)
  mine j b own =
      ap (λ k. holds (v.held k) b) (sym ((==_iff i j).0 own)) ∙ ap (λ p. holds p b) h.held

  joined-IsSound : IsSound nobody joined
  unfolding join_user node_in
  joined-IsSound = record {
    nodes = λ j b. elim (Bool-cases (a == b)) [
      | inl here ↦ rw here (elim (Bool-cases (i == j)) [
        | inl own ↦
            let was : node_in j (v.docs a).users ≡ 0 =
              h.nodes j a ∙ rw own (ap weight (and-false (holds (v.held j) a))) in
            rw (own, mine j b own, here) (omega (arith, was))
        | inr other ↦
            let was : node_in j (v.docs a).users ≡ weight (holds (v.held j) b && true) =
              h.nodes j a
              ∙ rw other (ap (λ c. weight (holds (v.held j) c && true)) ((==_iff a b).0 here)) in
            rw other (omega (arith, was))
      ])
      | inr there ↦ rw there (
          h.nodes j b ∙ elim (Bool-cases (i == j)) [
            | inl own ↦ rw (own, mine j b own, there) refl
            | inr other ↦ rw other refl
          ])
    ];
    named = λ n b entry. elim (Bool-cases (a == b)) [
      | inl here ↦
          let same : a ≡ b = (==_iff a b).0 here in
          rw here (ap (λ c. (v.docs c).name) same ∙ (h.named n b entry).0, omega arith)
      | inr there ↦
          let (name, user) = h.named n b entry in
          rw there
            (name, elim user [ inl some_user ↦ some_user | inr same ↦ absurd (ground arith) ])
    ];
    entered = λ b some_user. elim (Bool-cases (a == b)) [
      | inl here ↦ rw here (h.entry ∙ ap some ((==_iff a b).0 here))
      | inr there ↦ let user = rw there at some_user in rw there (h.entered b user)
    ];
    bounded = h.bounded;
  }

-- What open_handle leaves and returns: the session holds the document that the table has under the name,
-- and the reply is the content of this document with its revision.
pub record Joined {J : Type 0} (w : World J) (i : ℕ) (msg : DocMsg J)
    (r : Option (World J × Handled J)) : Type 0 where
  pub world : World J
  pub handled : Handled J
  pub address : ℕ
  pub returns : r ≡ some (world, handled)
  pub sound : IsSound nobody world
  pub held : world.held i ≡ some address
  pub entry : world.documents msg.doc_name ≡ some address
  pub reply :
      handled.reply ≡ Text.open_text (world.docs address).revision (world.docs address).content

module _ {J : Type 0} (v : World J) (c : Connection) (i a : ℕ) (msg : DocMsg J) where
  join_held-held :
      v.held i ≡ some a
      → join_held v c i msg
        ≡ some (set_doc v a (join_user (v.docs a) i c.conn_id), join_document c (v.docs a) i msg)
  unfolding join_held join_document
  join_held-held e = rw (e, join_held) refl

  join-reply :
      msg.type ≡ DocOpType.open_type
      → let d = (set_doc v a (join_user (v.docs a) i c.conn_id)).docs a in
        (join_document c (v.docs a) i msg).reply ≡ Text.open_text d.revision d.content
  unfolding join_document join_user to_json
  join-reply t = rw (==_self a, t) refl

-- On a sound table open_handle returns: it never calls through a null pointer. It leaves a sound table, in
-- which the session holds the document that stands under the name, and its reply is the content of this
-- document with its revision.
pub open_handle-Joined :
    {J : Type 0} (w : World J) (c : Connection) (i : ℕ) (msg : DocMsg J)
    → IsSound nobody w
    → i < w.sessions
    → msg.type ≡ DocOpType.open_type
    → Joined w i msg (open_handle w c i msg)
unfolding open_handle
open_handle-Joined w c i msg h low t =
    let (away, same) = leave_held-IsSound w i h in
    let v = look_up (leave_held w i) i msg.doc_name in
    let (a, ready, name) =
      look_up-IsReady (leave_held w i) i away (omega (arith, low, same)) msg.doc_name in
    record {
      world = joined v i a c.conn_id ready;
      handled = join_document c (v.docs a) i msg;
      address = a;
      returns = join_held-held v c i a msg ready.held;
      sound = joined-IsSound v i a c.conn_id ready;
      held = ready.held;
      entry = ap v.documents (sym name) ∙ ready.entry;
      reply = join-reply v c i a msg t;
    }
