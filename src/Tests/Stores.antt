-- ===== src/Tests/Stores.antt =====
-- Two connections and the table of documents of src/services/document/document_service.cc.
use jdocs.Base.{
  ℕ, ◌≡◌, refl, sym, subst, false, Bool-cases, inl, inr, [], Option, none, some, arith, ◌==◌,
}
use jdocs.Bitmap.Count.{count_below}
use jdocs.Document.{new_document, join_user}
use jdocs.Service.Defs.{DocOpType, DocMsg, Connection, Handled, join_document}
use jdocs.Service.Store.{
  World, new_world, holds, use_count, open_handle, leave_held, look_up, take_document, join_held,
  get_document, open_document, lock, close_held, handle,
}
use jdocs.Service.Sound.{IsSound, nobody}
use jdocs.Service.Opened.{Joined, open_handle-Joined}
use jdocs.Service.Reach.{here, next, message, disconnect, Reach-new_world}
use jdocs.Service.Race.{close_both, close_both-crashes}
use jdocs.Tests.Editing.{no_json}

abbrev ann : Connection
ann = record { conn_id = 10; user_id = 1 }

abbrev bob : Connection
bob = record { conn_id = 20; user_id = 2 }

abbrev opens : DocMsg (Unit {0})
opens = record {
  type = DocOpType.open_type;
  version = 0;
  user_id = 0;
  doc_name = "notes";
  ops = [];
}

abbrev after : Option (World (Unit {0}) × Handled (Unit {0})) → World (Unit {0})
after none = new_world 0
after (some (w, h)) = w

start-IsSound : IsSound nobody (new_world {J = Unit {0}} 2)
start-IsSound = Reach-new_world no_json 2 here

ann_in : World (Unit {0})
ann_in = after (open_handle (new_world 2) ann 0 opens)

ann_in-IsSound : IsSound nobody ann_in
unfolding ann_in
ann_in-IsSound =
    let o = open_handle-Joined (new_world 2) ann 0 opens start-IsSound (omega arith) refl in
    subst (λ r. IsSound nobody (after r)) (sym o.returns) o.sound

ann_in_sessions : ann_in.sessions ≡ 2
unfolding ann_in open_handle leave_held look_up take_document join_held get_document open_document
    join_document
ann_in_sessions = refl

open_handle-Joined_example : Joined ann_in 1 opens (open_handle ann_in bob 1 opens)
open_handle-Joined_example =
    open_handle-Joined ann_in bob 1 opens ann_in-IsSound (omega (arith, ann_in_sessions)) refl

both_in : World (Unit {0})
both_in = after (open_handle ann_in bob 1 opens)

both_in-IsSound : IsSound nobody both_in
unfolding both_in
both_in-IsSound =
    let o =
      open_handle-Joined ann_in bob 1 opens ann_in-IsSound (omega (arith, ann_in_sessions)) refl in
    subst (λ r. IsSound nobody (after r)) (sym o.returns) o.sound

both_hold :
    (both_in.held 0 ≡ some 0)
    × (both_in.held 1 ≡ some 0)
    × (both_in.sessions ≡ 2)
    × ((both_in.docs 0).name ≡ "notes")
unfolding both_in ann_in open_handle leave_held look_up take_document join_held get_document
    open_document lock use_count count_below join_document join_user new_document
both_hold = (refl, refl, refl, refl)

no_others : (k : ℕ) → (0 == k) ≡ false → (1 == k) ≡ false → holds (both_in.held k) 0 ≡ false
no_others k first second = elim (Bool-cases (holds (both_in.held k) 0)) [
  | inl owns ↦
      let (low, _) = both_in-IsSound.bounded k 0 owns in absurd (ground (arith, low, both_hold.2))
  | inr free ↦ free
]

-- The first session's connection goes after the two closings.
abbrev after_close : World (Unit {0})
after_close = (close_held (close_both both_in 0 1 0) ann 0 opens).0

close_both-crashes_example :
    (after_close.documents (both_in.docs 0).name ≡ some 0)
    × (open_handle after_close ann 0 opens ≡ none)
close_both-crashes_example =
    close_both-crashes no_json both_in 0 1 0 both_in-IsSound both_hold.0 both_hold.1 refl no_others
      after_close (next here (disconnect ann 0 opens refl)) ann 0 opens (sym both_hold.3)

ann-opens :
    handle no_json (new_world 2) ann 0 (some opens)
    ≡ some (ann_in, join_document ann (new_document "notes") 0 opens)
unfolding ann_in handle open_handle leave_held look_up take_document join_held get_document
    open_document join_document
ann-opens = refl

Reach-new_world_example : IsSound nobody (close_held ann_in ann 0 opens).0
Reach-new_world_example = Reach-new_world no_json 2 (
    next (next here (message ann 0 (some opens) _ (omega arith) ann-opens))
      (disconnect ann 0 opens refl))
