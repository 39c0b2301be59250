-- ===== src/Service/Reach.antt =====
-- The messages of several connections, one after the other, in src/services/document/document_service.cc.
use mathlib.Core.Option.{some-injective}
use jdocs.Base.{
  ℕ, ◌<◌, ◌≡◌, refl, sym, ap, ◌∙◌, subst, Bool-cases, inl, inr, Option, none, some, arith, length,
  ◌==◌, ==_iff, if◌then◌else◌, bind-some, ◌>>=◌,
}
use jdocs.Ot.Operation.{JsonOps}
use jdocs.Document.{Document, new_document, apply_op}
use jdocs.Service.Defs.{
  DocOpType, Connection, DocMsg, Handled, answer_edit, close_handle, edit_handle,
}
use jdocs.Service.Broadcast.{frame, apply_op-frame}
use jdocs.Service.Store.{
  World, new_world, exit_document, set_doc, set_held, close_held, edit_held, handle,
}
use jdocs.Service.Nodes.{node_in}
use jdocs.Service.Sound.{IsSound, nobody}
use jdocs.Service.Leave.{exit_document-IsSound, set_held-IsSound}
use jdocs.Service.Opened.{open_handle-Joined}

close_held-IsSound :
    {J : Type 0} (w : World J) (c : Connection) (i : ℕ) (msg : DocMsg J)
    → IsSound nobody w
    → IsSound nobody (close_held w c i msg).0
unfolding close_held
close_held-IsSound {J} w c i msg h = by_held (w.held i) refl
  where
    by_held :
        (p : Option ℕ)
        → w.held i ≡ p
        → let r : World J × Handled J = elim p [
          | none ↦ (w, close_handle c none i msg)
          | some a ↦ (set_held (exit_document w i a) i none, close_handle c (some (w.docs a)) i msg)
        ] in
          IsSound nobody r.0
    by_held none e = h
    by_held (some a) e = set_held-IsSound (exit_document w i a) i (exit_document-IsSound w i a h e)

-- A document gets other content.
edited-IsSound :
    {J : Type 0} (w : World J) (a : ℕ) (d : Document J)
    → IsSound nobody w
    → frame d ≡ frame (w.docs a)
    → IsSound nobody (set_doc w a d)
edited-IsSound w a d h e = record {
  nodes = λ j b. ap (node_in j) (users b) ∙ h.nodes j b;
  named = λ n b entry.
      let (same, some_user) = h.named n b entry in
      (name b ∙ same, omega (arith, ap length (users b), some_user));
  entered = λ b some_user.
      ap w.documents (name b) ∙ h.entered b (omega (arith, some_user, ap length (users b)));
  bounded = h.bounded;
}
  where
    kept : (b : ℕ) → frame (if a == b then d else w.docs b) ≡ frame (w.docs b)
    kept b = elim (Bool-cases (a == b)) [
      | inl here ↦ rw here (e ∙ ap (λ c. frame (w.docs c)) ((==_iff a b).0 here))
      | inr there ↦ rw there refl
    ]

    users : (b : ℕ) → (if a == b then d else w.docs b).users ≡ (w.docs b).users
    users b = ap (λ f. f.1) (kept b)

    name : (b : ℕ) → (if a == b then d else w.docs b).name ≡ (w.docs b).name
    name b = ap (λ f. f.0) (kept b)

abbrev pub left_world : {J : Type 0} → World J → ℕ → Option (Document J) → World J
left_world w a none = w
left_world w a (some d) = set_doc w a d

new_world-IsSound : {J : Type 0} (sessions : ℕ) → IsSound nobody (new_world {J = J} sessions)
unfolding new_document node_in
new_world-IsSound sessions = record {
  nodes = λ i a. refl;
  named = λ n a e. cc;
  entered = λ a lt. absurd (omega (arith, lt));
  bounded = λ i a e. cc;
}

module _ {J : Type 0} (json : JsonOps J) where
  pub data Step (w v : World J) : Type 0 where
    message :
        (c : Connection) (i : ℕ) (m : Option (DocMsg J)) (r : Handled J)
        → i < w.sessions
        → handle json w c i m ≡ some (v, r)
        → Step w v
    disconnect : (c : Connection) (i : ℕ) (msg : DocMsg J) → v ≡ (close_held w c i msg).0 → Step w v

  pub data Reach (w : World J) : World J → Type 0 where
    here : Reach w w
    next : {v u : World J} → Reach w v → Step v u → Reach w u

  edit_held-IsSound :
      (w v : World J) (c : Connection) (i : ℕ) (msg : DocMsg J) (r : Handled J)
      → IsSound nobody w
      → edit_held json w c i msg ≡ some (v, r)
      → IsSound nobody v
  unfolding edit_held edit_handle answer_edit
  edit_held-IsSound w v c i msg r h e = by_held (w.held i) e
    where
      by_held :
          (p : Option ℕ)
          → (elim p as (λ _. Option (World J × Handled J)) [
            | none ↦ edit_handle json c none msg >>= λ g. some (w, g)
            | some a ↦ edit_handle json c (some (w.docs a)) msg >>= λ g.
                some (elim g.left [ none ↦ w | some d ↦ set_doc w a d ], g)
          ])
            ≡ some (v, r)
          → IsSound nobody v
      by_held none e' = subst (IsSound nobody) (ap (λ s. s.0) (some-injective _ _ e')) h
      by_held (some a) e' =
          let (g, answered, e2) = bind-some (edit_handle json c (some (w.docs a)) msg) _ e' in
          let (r', applied, e3) =
            bind-some (apply_op json (w.docs a) msg.version msg.ops) _ answered in
          let same : set_doc w a r'.document ≡ v =
            ap (λ (x : Handled J). left_world w a x.left) (some-injective _ _ e3)
            ∙ ap (λ s. s.0) (some-injective _ _ e2) in
          subst (IsSound nobody) same (
            edited-IsSound w a r'.document h
              (apply_op-frame json (w.docs a) msg.version msg.ops applied))

  message-IsSound :
      (w v : World J) (c : Connection) (i : ℕ) (m : Option (DocMsg J)) (r : Handled J)
      → IsSound nobody w
      → i < w.sessions
      → handle json w c i m ≡ some (v, r)
      → IsSound nobody v
  unfolding handle
  message-IsSound w v c i none r h low e =
      subst (IsSound nobody) (ap (λ s. s.0) (some-injective _ _ e)) h
  message-IsSound w v c i (some msg) r h low e = by_type msg.type refl
    where
      by_type : (t : DocOpType) → msg.type ≡ t → IsSound nobody v
      by_type DocOpType.open_type t =
          let o = open_handle-Joined w c i msg h low t in
          let e' = rw t at e in
          subst (IsSound nobody) (ap (λ s. s.0) (some-injective _ _ (sym o.returns ∙ e'))) o.sound
      by_type DocOpType.edit_type t = let e' = rw t at e in edit_held-IsSound w v c i msg r h e'
      by_type DocOpType.close_type t =
          let e' = rw t at e in
          subst (IsSound nobody) (ap (λ s. s.0) (some-injective _ _ e'))
            (close_held-IsSound w c i msg h)
      by_type DocOpType.unknow_type t =
          let e' = rw t at e in subst (IsSound nobody) (ap (λ s. s.0) (some-injective _ _ e')) h
      by_type DocOpType.ack_type t =
          let e' = rw t at e in subst (IsSound nobody) (ap (λ s. s.0) (some-injective _ _ e')) h
      by_type DocOpType.notify_type t =
          let e' = rw t at e in subst (IsSound nobody) (ap (λ s. s.0) (some-injective _ _ e')) h
      by_type DocOpType.op_type t =
          let e' = rw t at e in subst (IsSound nobody) (ap (λ s. s.0) (some-injective _ _ e')) h

  pub Reach-IsSound : {w v : World J} → IsSound nobody w → Reach w v → IsSound nobody v
  Reach-IsSound h here = h
  Reach-IsSound h (next {v} {u} p (message c i m r low e)) =
      message-IsSound v u c i m r (Reach-IsSound h p) low e
  Reach-IsSound h (next p (disconnect c i msg e)) =
      subst (IsSound nobody) (sym e) (close_held-IsSound _ c i msg (Reach-IsSound h p))

  -- After any sequence of messages, each handled as a whole, and of connections that go: each session
  -- that holds a document is in its user list once, and the table has exactly the documents with users,
  -- each under its name.
  pub Reach-new_world :
      (sessions : ℕ) {v : World J} → Reach (new_world sessions) v → IsSound nobody v
  Reach-new_world sessions p = Reach-IsSound (new_world-IsSound sessions) p
