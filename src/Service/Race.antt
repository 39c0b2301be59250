-- ===== src/Service/Race.antt =====
-- Two connections that close one document of src/services/document/document_service.cc at the same time:
-- both run ExitUser before either resets its `document_`.
use Prim.Native.String.{String}
use jdocs.Base.{
  ℕ, ◌<◌, ◌≡◌, refl, sym, ap, ◌∙◌, subst, Bool, true, false, ◌&&◌, Bool-cases, inl, inr, none, some,
  arith, ◌==◌, ==_iff, if◌then◌else◌,
}
use jdocs.Bitmap.Count.{weight, count_below-pos, count_below-set}
use jdocs.Document.{exit_user}
use jdocs.Service.Defs.{Connection, DocMsg}
use jdocs.Service.Store.{
  World, holds, use_count, set_doc, set_held, close_document, exit_document, open_handle,
}
use jdocs.Service.Nodes.{node_in-length}
use jdocs.Ot.Operation.{JsonOps}
use jdocs.Service.Reach.{Reach}
use jdocs.Service.Stuck.{IsStuck}
use jdocs.Service.Blocked.{open_handle-blocked, Reach-IsStuck}
use jdocs.Service.Sound.{IsSound, nobody}

-- The two calls of ExitUser, and then the two resets.
abbrev pub close_both : {J : Type 0} → World J → (i j a : ℕ) → World J
close_both w i j a = set_held (set_held (exit_document (exit_document w i a) j a) i none) j none

module _ {J : Type 0} where
  close_document-kept :
      (w : World J) (name : String) (a : ℕ)
      → w.documents name ≡ some a
      → (use_count w a == 1) ≡ false
      → close_document w name ≡ (w, false)
  unfolding close_document
  close_document-kept w name a entry several = rw (entry, close_document) (rw several refl)

  -- An exit leaves the table alone while another session holds the document.
  exit_document-kept :
      (w : World J) (i a : ℕ)
      → w.documents (w.docs a).name ≡ some a
      → (use_count w a == 1) ≡ false
      → exit_document w i a ≡ set_doc w a (exit_user (w.docs a) i).0
  unfolding exit_document exit_user use_count
  exit_document-kept w i a entry several = elim (Bool-cases (exit_user (w.docs a) i).1) [
    | inl closing ↦ rw closing (
        ap (λ (r : World J × Bool). r.0)
          (close_document-kept (set_doc w a (exit_user (w.docs a) i).0) (w.docs a).name a entry
            several))
    | inr staying ↦ rw staying refl
  ]

  shared :
      (w : World J) (i j a : ℕ)
      → holds (w.held i) a ≡ true
      → holds (w.held j) a ≡ true
      → (i == j) ≡ false
      → i < w.sessions
      → j < w.sessions
      → (use_count w a == 1) ≡ false
  unfolding use_count
  shared w i j a hi hj apart li lj =
      let p : ℕ → Bool = λ k. holds (w.held k) a in
      let q : ℕ → Bool = λ k. if i == k then false else p k in
      let changed = count_below-set p q w.sessions i false (λ k. refl) li in
      let other : q j ≡ true = rw apart hj in
      let some_left = count_below-pos q w.sessions j other lj in
      let one : weight (p i) ≡ 1 = ap weight hi in ground (arith, changed, some_left, one)

  module _ (w : World J) (i j a : ℕ) (h : IsSound nobody w) (ei : w.held i ≡ some a)
      (ej : w.held j ≡ some a) (apart : (i == j) ≡ false)
      (alone : (k : ℕ) → (i == k) ≡ false → (j == k) ≡ false → holds (w.held k) a ≡ false) where
    first_holds : holds (w.held i) a ≡ true
    first_holds = rw ei ((==_iff a a).1 refl)

    second_holds : holds (w.held j) a ≡ true
    second_holds = rw ej ((==_iff a a).1 refl)

    several : (use_count w a == 1) ≡ false
    several =
        shared w i j a first_holds second_holds apart (h.bounded i a first_holds).0
          (h.bounded j a second_holds).0

    entry_before : w.documents (w.docs a).name ≡ some a
    entry_before = h.entered a (
        node_in-length i (w.docs a).users
          (omega (arith, h.nodes i a, ap (λ b. weight (b && true)) first_holds)))

    abbrev once_left : World J
    once_left = set_doc w a (exit_user (w.docs a) i).0

    both_left :
        exit_document (exit_document w i a) j a
        ≡ set_doc once_left a (exit_user (once_left.docs a) j).0
    unfolding use_count exit_user
    both_left =
        ap (λ v. exit_document v j a) (exit_document-kept w i a entry_before several)
        ∙ exit_document-kept once_left j a (rw ((==_iff a a).1 refl) entry_before) several

    released :
        (k : ℕ) → holds (if j == k then none else if i == k then none else w.held k) a ≡ false
    released k = elim (Bool-cases (j == k)) [
      | inl second ↦ rw second refl
      | inr not_second ↦ rw not_second (elim (Bool-cases (i == k)) [
        | inl first ↦ rw first refl
        | inr not_first ↦ rw not_first (alone k not_first not_second)
      ])
    ]

    close_both-IsStuck : IsStuck (w.docs a).name a (close_both w i j a)
    close_both-IsStuck =
        subst (λ v. IsStuck (w.docs a).name a (set_held (set_held v i none) j none)) (sym both_left)
          (record {
            entry = entry_before;
            unheld = released;
            below = (h.bounded i a first_holds).1;
          })

  -- On a sound table, two sessions are the only owners of a document, and both close it, so that both leave
  -- its user list before either lets go of it. Then, after any sequence of whole messages and of connections
  -- that go, the table still has the document's name with its old address, and a session that opens this
  -- name calls through a null pointer, whatever document it has open.
  pub close_both-crashes :
      (json : JsonOps J) (w : World J) (i j a : ℕ)
      → IsSound nobody w
      → w.held i ≡ some a
      → w.held j ≡ some a
      → (i == j) ≡ false
      → ((k : ℕ) → (i == k) ≡ false → (j == k) ≡ false → holds (w.held k) a ≡ false)
      → (v : World J) → Reach json (close_both w i j a) v
      → (c : Connection) (k : ℕ) (msg : DocMsg J) → msg.doc_name ≡ (w.docs a).name
      → (v.documents (w.docs a).name ≡ some a) × (open_handle v c k msg ≡ none)
  close_both-crashes json w i j a h ei ej apart alone v p c k msg name =
      let s =
        Reach-IsStuck json (w.docs a).name a (close_both-IsStuck w i j a h ei ej apart alone) p in
      (s.entry, open_handle-blocked (w.docs a).name a v c k msg s name)
