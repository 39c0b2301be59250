-- ===== src/Service/Blocked.antt =====
-- Messages while a name of the table of src/services/document/document_service.cc has no document.
use mathlib.Core.Option.{some-injective}
use Prim.Native.String.{String}
use jdocs.Base.{==_self, ℕ, ◌≡◌, refl, sym, ap, ◌∙◌, subst, Option, none, some, bind-some, ◌>>=◌}
use jdocs.Ot.Operation.{JsonOps}
use jdocs.Document.{Document}
use jdocs.Service.Defs.{
  DocOpType, Connection, DocMsg, Handled, join_document, close_handle, edit_handle,
}
use jdocs.Service.Store.{
  World, set_doc, set_held, get_document, open_document, exit_document, leave_held, take_document,
  look_up, join_held, open_handle, close_held, edit_held, handle,
}
use jdocs.Service.Reach.{left_world, Step, Reach}
use jdocs.Service.Stuck.{
  IsStuck, set_held-IsStuck, lock-stuck, get_document-other, exit_document-IsStuck,
  leave_held-IsStuck, take_document-IsStuck, left_world-IsStuck,
}

left_world-elim :
    {J : Type 0} (w : World J) (b : ℕ) (left : Option (Document J))
    → left_world w b left ≡ (elim left [ none ↦ w | some d ↦ set_doc w b d ])
left_world-elim w b none = refl
left_world-elim w b (some d) = refl

module _ {J : Type 0} (name : String) (a : ℕ) where
  join_held-IsStuck :
      (w v : World J) (c : Connection) (i : ℕ) (msg : DocMsg J) (r : Handled J)
      → IsStuck name a w
      → join_held w c i msg ≡ some (v, r)
      → IsStuck name a v
  unfolding join_held
  join_held-IsStuck w v c i msg r h e = by_held (w.held i) e
    where
      by_held :
          (p : Option ℕ)
          → (elim p as (λ _. Option (World J × Handled J)) [
            | none ↦ none
            | some b ↦
                let g = join_document c (w.docs b) i msg in
                some (elim g.left [ none ↦ w | some d ↦ set_doc w b d ], g)
          ])
            ≡ some (v, r)
          → IsStuck name a v
      by_held none e' = absurd cc
      by_held (some b) e' =
          let left = (join_document c (w.docs b) i msg).left in
          let same : left_world w b left ≡ v =
            left_world-elim w b left ∙ ap (λ s. s.0) (some-injective _ _ e') in
          subst (IsStuck name a) same (left_world-IsStuck name a w b left h)

  open_handle-IsStuck :
      (w v : World J) (c : Connection) (i : ℕ) (msg : DocMsg J) (r : Handled J)
      → IsStuck name a w
      → open_handle w c i msg ≡ some (v, r)
      → IsStuck name a v
  unfolding open_handle look_up
  open_handle-IsStuck w v c i msg r h e =
      let u = leave_held w i in
      let s = leave_held-IsStuck name a w i h in
      let n = msg.doc_name in
      join_held-IsStuck (look_up u i n) v c i msg r
        (take_document-IsStuck name a u i n (get_document u n) s (get_document-other name a u n s))
        e

  get_document-blocked : (w : World J) → IsStuck name a w → get_document w name ≡ none
  unfolding get_document
  get_document-blocked w h = rw (h.entry, get_document) (lock-stuck name a w h)

  open_document-blocked : (w : World J) → IsStuck name a w → open_document w name ≡ (w, none)
  unfolding open_document
  open_document-blocked w h =
      rw (h.entry, open_document)
        (ap {B = World J × Option ℕ} (λ p. (w, p)) (lock-stuck name a w h))

  join_held-free :
      (w : World J) (c : Connection) (i : ℕ) (msg : DocMsg J)
      → w.held i ≡ none
      → join_held w c i msg ≡ none
  unfolding join_held
  join_held-free w c i msg free = rw (free, join_held) refl

  close_held-IsStuck :
      (w : World J) (c : Connection) (i : ℕ) (msg : DocMsg J)
      → IsStuck name a w
      → IsStuck name a (close_held w c i msg).0
  unfolding close_held
  close_held-IsStuck w c i msg h = by_held (w.held i)
    where
      by_held :
          (p : Option ℕ)
          → let r : World J × Handled J = elim p [
            | none ↦ (w, close_handle c none i msg)
            | some b ↦
                (set_held (exit_document w i b) i none, close_handle c (some (w.docs b)) i msg)
          ] in
            IsStuck name a r.0
      by_held none = h
      by_held (some b) =
          set_held-IsStuck name a (exit_document w i b) i none
            (exit_document-IsStuck name a w i b h) refl

  -- A session that opens the name calls through a null pointer, whatever it held before.
  pub open_handle-blocked :
      (w : World J) (c : Connection) (i : ℕ) (msg : DocMsg J)
      → IsStuck name a w
      → msg.doc_name ≡ name
      → open_handle w c i msg ≡ none
  unfolding open_handle look_up take_document
  open_handle-blocked w c i msg h e =
      let u = leave_held w i in
      let s = leave_held-IsStuck name a w i h in
      let s' = set_held-IsStuck name a u i none s refl in
      ap (λ n. join_held (look_up u i n) c i msg) e
      ∙ ap (λ p. join_held (take_document u i name p) c i msg) (get_document-blocked u s)
      ∙ ap (λ (r : World J × Option ℕ). join_held (set_held r.0 i r.1) c i msg)
          (open_document-blocked (set_held u i none) s')
      ∙ join_held-free (set_held (set_held u i none) i none) c i msg (rw (==_self i) refl)

module _ {J : Type 0} (json : JsonOps J) (name : String) (a : ℕ) where
  edit_held-IsStuck :
      (w v : World J) (c : Connection) (i : ℕ) (msg : DocMsg J) (r : Handled J)
      → IsStuck name a w
      → edit_held json w c i msg ≡ some (v, r)
      → IsStuck name a v
  unfolding edit_held
  edit_held-IsStuck w v c i msg r h e = by_held (w.held i) e
    where
      by_held :
          (p : Option ℕ)
          → (elim p as (λ _. Option (World J × Handled J)) [
            | none ↦ edit_handle json c none msg >>= λ g. some (w, g)
            | some b ↦ edit_handle json c (some (w.docs b)) msg >>= λ g.
                some (elim g.left [ none ↦ w | some d ↦ set_doc w b d ], g)
          ])
            ≡ some (v, r)
          → IsStuck name a v
      by_held none e' =
          let (g, answered, e2) = bind-some (edit_handle json c none msg) _ e' in
          subst (IsStuck name a) (ap (λ s. s.0) (some-injective _ _ e2)) h
      by_held (some b) e' =
          let (g, answered, e2) = bind-some (edit_handle json c (some (w.docs b)) msg) _ e' in
          let same : left_world w b g.left ≡ v =
            left_world-elim w b g.left ∙ ap (λ s. s.0) (some-injective _ _ e2) in
          subst (IsStuck name a) same (left_world-IsStuck name a w b g.left h)

  -- What a message that is neither an edit nor an open leaves.
  same_world :
      (w v : World J) (r s : Handled J)
      → IsStuck name a w
      → ◌≡◌ {A = Option (World J × Handled J)} (some (w, s)) (some (v, r))
      → IsStuck name a v
  same_world w v r s h e = subst (IsStuck name a) (ap (λ t. t.0) (some-injective _ _ e)) h

  message-IsStuck :
      (w v : World J) (c : Connection) (i : ℕ) (m : Option (DocMsg J)) (r : Handled J)
      → IsStuck name a w
      → handle json w c i m ≡ some (v, r)
      → IsStuck name a v
  unfolding handle
  message-IsStuck w v c i none r h e = same_world w v r _ h e
  message-IsStuck w v c i (some msg) r h e = by_type msg.type refl
    where
      by_type : (t : DocOpType) → msg.type ≡ t → IsStuck name a v
      by_type DocOpType.open_type t =
          let e' = rw t at e in open_handle-IsStuck name a w v c i msg r h e'
      by_type DocOpType.edit_type t = let e' = rw t at e in edit_held-IsStuck w v c i msg r h e'
      by_type DocOpType.close_type t =
          let e' = rw t at e in
          subst (IsStuck name a) (ap (λ s. s.0) (some-injective _ _ e'))
            (close_held-IsStuck name a w c i msg h)
      by_type DocOpType.unknow_type t = let e' = rw t at e in same_world w v r _ h e'
      by_type DocOpType.ack_type t = let e' = rw t at e in same_world w v r _ h e'
      by_type DocOpType.notify_type t = let e' = rw t at e in same_world w v r _ h e'
      by_type DocOpType.op_type t = let e' = rw t at e in same_world w v r _ h e'

  pub Reach-IsStuck : {w v : World J} → IsStuck name a w → Reach json w v → IsStuck name a v
  Reach-IsStuck h Reach.here = h
  Reach-IsStuck h (Reach.next {v} {u} p (Step.message c i m r low e)) =
      message-IsStuck v u c i m r (Reach-IsStuck h p) e
  Reach-IsStuck h (Reach.next p (Step.disconnect c i msg e)) =
      subst (IsStuck name a) (sym e) (close_held-IsStuck name a _ c i msg (Reach-IsStuck h p))
