-- ===== src/Service/Leave.antt =====
-- ExitUser and CloseDocument of src/services/document on a sound table.
use Prim.Native.String.{String}
use mathlib.Core.Option.{some-injective}
use text.Mathlib.Text.{◌==◌ as str_eq}
use text.Mathlib.TextEquality.{eq_iff}
use jdocs.Base.{
  ℕ, ◌<◌, ◌≡◌, refl, sym, ap, ◌∙◌, subst, Bool, true, false, not, ◌&&◌, Bool-cases, inl, inr, List,
  Option, none, some, arith, length, ◌==◌, ==_iff, if◌then◌else◌,
}
use jdocs.Bitmap.Count.{weight}
use jdocs.Document.{UserNode, Document, exit_user, erase_node}
use jdocs.Service.Store.{
  World, holds, use_count, set_held, set_doc, set_entry, close_document, exit_document, leave_held,
}
use jdocs.Service.Nodes.{
  node_in, node_in-empty, node_in-length, node_in-erase_self, node_in-erase_other, use_count-one,
}
use jdocs.Service.Sound.{IsSound, nobody, and-false}

close_document-last :
    {J : Type 0} (w : World J) (name : String) (a : ℕ)
    → w.documents name ≡ some a
    → use_count w a ≡ 1
    → close_document w name ≡ (set_entry w name none, true)
unfolding close_document
close_document-last w name a entry one =
    let last : (use_count w a == 1) ≡ true = (==_iff _ _).1 one in
    rw (entry, close_document) (rw last refl)

module _ {J : Type 0} (w : World J) where
  module _ (i a : ℕ) (h : IsSound nobody w) (e : w.held i ≡ some a) where
    has : holds (w.held i) a ≡ true
    has = rw e (ground arith)

    once : node_in i (w.docs a).users ≡ 1
    once = h.nodes i a ∙ rw has

    abbrev rest : List UserNode
    rest = erase_node i (w.docs a).users

    abbrev left : Document J
    left = record (w.docs a) { users = rest }

    elsewhere :
        (j b : ℕ)
        → (a == b) ≡ false
        → weight (holds (w.held j) b && true) ≡ weight (holds (w.held j) b && not (i == j))
    elsewhere j b there = elim (Bool-cases (i == j)) [
      | inl own ↦
          let mine : holds (w.held j) b ≡ false =
            ap (λ k. holds (w.held k) b) (sym ((==_iff i j).0 own))
            ∙ ap (λ p. holds p b) e
            ∙ there in
          rw mine refl
      | inr other ↦ rw other refl
    ]

    left_nodes :
        (j b : ℕ)
        → node_in j (if a == b then left else w.docs b).users
          ≡ weight (holds (w.held j) b && not (i == j))
    left_nodes j b = elim (Bool-cases (a == b)) [
      | inl here ↦
          let same : a ≡ b = (==_iff a b).0 here in
          rw here (elim (Bool-cases (i == j)) [
            | inl own ↦
                ap (λ k. node_in k rest) (sym ((==_iff i j).0 own))
                ∙ node_in-erase_self i (w.docs a).users once
                ∙ rw own (sym (ap weight (and-false (holds (w.held j) b))))
            | inr other ↦
                node_in-erase_other i j (w.docs a).users other
                ∙ h.nodes j a
                ∙ rw other (ap (λ c. weight (holds (w.held j) c && true)) same)
          ])
      | inr there ↦ rw there (h.nodes j b ∙ elsewhere j b there)
    ]

    entry_here : w.documents (w.docs a).name ≡ some a
    entry_here = h.entered a (node_in-length i (w.docs a).users (omega (arith, once)))

    other_document :
        (n : String) (b : ℕ)
        → w.documents n ≡ some b
        → str_eq (w.docs a).name n ≡ false
        → (a == b) ≡ false
    other_document n b entry differs = elim (Bool-cases (a == b)) [
      | inl here ↦
          let same : a ≡ b = (==_iff a b).0 here in
          let name : (w.docs a).name ≡ n = ap (λ c. (w.docs c).name) same ∙ (h.named n b entry).0 in
          let equal = (eq_iff (w.docs a).name n).1 name in cc
      | inr there ↦ there
    ]

    other_name :
        (b : ℕ)
        → w.documents (w.docs b).name ≡ some b
        → (a == b) ≡ false
        → str_eq (w.docs a).name (w.docs b).name ≡ false
    other_name b entry there = elim (Bool-cases (str_eq (w.docs a).name (w.docs b).name)) [
      | inl equal ↦
          let name = (eq_iff (w.docs a).name (w.docs b).name).0 equal in
          let both : some a ≡ some b = sym entry_here ∙ ap w.documents name ∙ entry in
          let same : a ≡ b = some-injective a b both in ground arith
      | inr differs ↦ differs
    ]

    -- While others stay, the table keeps its entry.
    stay : 0 < length rest → IsSound (λ j. i == j) (set_doc w a left)
    stay some_user = record {
      nodes = left_nodes;
      named = λ n b entry. elim (Bool-cases (a == b)) [
        | inl here ↦
            let same : a ≡ b = (==_iff a b).0 here in
            rw here (ap (λ c. (w.docs c).name) same ∙ (h.named n b entry).0, some_user)
        | inr there ↦ rw there (h.named n b entry)
      ];
      entered = λ b some_left. elim (Bool-cases (a == b)) [
        | inl here ↦ rw here (entry_here ∙ ap some ((==_iff a b).0 here))
        | inr there ↦ let left_there = rw there at some_left in rw there (h.entered b left_there)
      ];
      bounded = h.bounded;
    }

    -- The last user takes the entry along.
    go : length rest ≡ 0 → IsSound (λ j. i == j) (set_entry (set_doc w a left) (w.docs a).name none)
    go empty = record {
      nodes = left_nodes;
      named = λ n b entry. elim (Bool-cases (str_eq (w.docs a).name n)) [
        | inl gone ↦ let nothing = rw gone at entry in cc
        | inr kept ↦
            let old = rw kept at entry in
            let there = other_document n b old kept in rw there (h.named n b old)
      ];
      entered = λ b some_left. elim (Bool-cases (a == b)) [
        | inl here ↦
            let left_here = rw here at some_left in absurd (omega (arith, empty, left_here))
        | inr there ↦
            let left_there = rw there at some_left in
            let old = h.entered b left_there in
            let kept = other_name b old there in rw (there, kept) old
      ];
      bounded = h.bounded;
    }

    alone : length rest ≡ 0 → use_count w a ≡ 1
    alone empty = use_count-one w a i has (h.bounded i a has).0 (λ j other.
        elim (Bool-cases (holds (w.held j) a)) [
          | inl holder ↦
              let present : node_in j rest ≡ 1 =
                node_in-erase_other i j (w.docs a).users other ∙ h.nodes j a ∙ rw holder in
              let nowhere = node_in-empty j rest empty in absurd (omega (arith, present, nowhere))
          | inr free ↦ free
        ])

    exited : World J
    exited =
        if length rest == 0
        then set_entry (set_doc w a left) (w.docs a).name none
        else set_doc w a left

    exit_document-eq : exit_document w i a ≡ exited
    unfolding exit_document exit_user use_count exited
    exit_document-eq = elim (Bool-cases (length rest == 0)) [
      | inl empty ↦ rw empty (
          ap (λ (r : World J × Bool). r.0)
            (close_document-last (set_doc w a left) (w.docs a).name a entry_here
              (alone ((==_iff _ _).0 empty))))
      | inr some_left ↦ rw some_left refl
    ]

    pub exit_document-IsSound : IsSound (λ j. i == j) (exit_document w i a)
    unfolding exited
    exit_document-IsSound =
        subst (IsSound (λ j. i == j)) (sym exit_document-eq) (elim (Bool-cases (length rest == 0)) [
          | inl empty ↦ rw empty (go ((==_iff _ _).0 empty))
          | inr some_left ↦ rw some_left (stay (ground arith))
        ])

    exit_document-sessions : (exit_document w i a).sessions ≡ w.sessions
    unfolding exited
    exit_document-sessions =
        ap (λ (v : World J). v.sessions) exit_document-eq ∙ elim (Bool-cases (length rest == 0)) [
          | inl empty ↦ rw empty refl
          | inr some_left ↦ rw some_left refl
        ]

unheld-IsSound :
    {J : Type 0} (w : World J) (i : ℕ)
    → IsSound nobody w
    → w.held i ≡ none
    → IsSound (λ j. i == j) w
unheld-IsSound w i h e = record {
  nodes = λ j b. h.nodes j b ∙ elim (Bool-cases (i == j)) [
    | inl own ↦
        let nothing : holds (w.held j) b ≡ false =
          ap (λ k. holds (w.held k) b) (sym ((==_iff i j).0 own)) ∙ ap (λ p. holds p b) e in
        rw nothing refl
    | inr other ↦ rw other refl
  ];
  named = h.named;
  entered = h.entered;
  bounded = h.bounded;
}

-- Leaving the document that a session holds.
pub leave_held-IsSound :
    {J : Type 0} (w : World J) (i : ℕ)
    → IsSound nobody w
    → IsSound (λ j. i == j) (leave_held w i) × ((leave_held w i).sessions ≡ w.sessions)
unfolding leave_held
leave_held-IsSound {J} w i h = left_from (w.held i) refl
  where
    left_from :
        (p : Option ℕ)
        → w.held i ≡ p
        → let v : World J = elim p [ none ↦ w | some a ↦ exit_document w i a ] in
          IsSound (λ j. i == j) v × (v.sessions ≡ w.sessions)
    left_from none e = (unheld-IsSound w i h e, refl)
    left_from (some a) e = (exit_document-IsSound w i a h e, exit_document-sessions w i a h e)

-- A session that is away may hold anything that is allocated.
pub set_held-IsSound :
    {J : Type 0} (w : World J) (i : ℕ)
    → IsSound (λ j. i == j) w
    → IsSound nobody (set_held w i none)
set_held-IsSound w i h = record {
  nodes = λ j b. h.nodes j b ∙ elim (Bool-cases (i == j)) [
    | inl own ↦ rw own (ap weight (and-false (holds (w.held j) b)))
    | inr other ↦ rw other refl
  ];
  named = h.named;
  entered = h.entered;
  bounded = λ j b held_there. elim (Bool-cases (i == j)) [
    | inl own ↦ let nothing = rw own at held_there in cc
    | inr other ↦ let there = rw other at held_there in h.bounded j b there
  ];
}
