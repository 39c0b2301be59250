-- ===== src/Service/LookUp.antt =====
-- GetDocument and OpenDocument of src/services/document/document_service.cc on a sound table.
use Prim.Native.String.{String}
use mathlib.Core.Option.{some-injective}
use text.Mathlib.Text.{◌==◌ as str_eq}
use text.Mathlib.TextEquality.{eq_iff}
use jdocs.Base.{
  ==_self, ℕ, ◌+◌, ◌<◌, ◌≡◌, ◌⊎◌, refl, sym, ap, ◌∙◌, subst, true, false, not, ◌&&◌, Bool-cases,
  inl, inr, Option, none, some, arith, length, ltb, ◌==◌, ==_iff, if◌then◌else◌,
}
use jdocs.Bitmap.Count.{weight}
use jdocs.Document.{new_document}
use jdocs.Service.Store.{
  World, holds, use_count, set_held, set_doc, set_entry, lock, get_document, open_document,
  take_document, look_up,
}
use jdocs.Service.Nodes.{node_in, node_in-some}
use jdocs.Service.Sound.{one_if, and-false, IsSound, owner}

away_same :
    (i j : ℕ) (p q : Option ℕ) (c : ℕ)
    → weight (holds q c && not (i == j))
      ≡ weight (holds (if i == j then p else q) c && not (i == j))
away_same i j p q c = elim (Bool-cases (i == j)) [
  | inl own ↦ rw own (ap weight (and-false (holds q c) ∙ sym (and-false (holds p c))))
  | inr other ↦ rw other refl
]

-- A session that is away from all user lists holds a document that is in the table.
pub record IsReady {J : Type 0} (i a : ℕ) (w : World J) : Type 0 where
  pub held : w.held i ≡ some a
  pub nodes : (j b : ℕ) → node_in j (w.docs b).users ≡ weight (holds (w.held j) b && not (i == j))
  pub named :
      (n : String) (b : ℕ)
      → w.documents n ≡ some b
      → ((w.docs b).name ≡ n) × ((0 < length (w.docs b).users) ⊎ (a ≡ b))
  pub entered : (b : ℕ) → 0 < length (w.docs b).users → w.documents (w.docs b).name ≡ some b
  pub entry : w.documents (w.docs a).name ≡ some a
  pub bounded : (j b : ℕ) → holds (w.held j) b ≡ true → (j < w.sessions) × (b < w.allocated)

module _ {J : Type 0} (w : World J) (i : ℕ) (h : IsSound (λ j. i == j) w)
    (low : i < w.sessions) where
  -- A document with users is allocated.
  allocated : (b : ℕ) → 0 < length (w.docs b).users → b < w.allocated
  allocated b some_user =
      let (j, in_list) = node_in-some (w.docs b).users some_user in
      let e = h.nodes j b in
      let (holder, _) = one_if (holds (w.held j) b) (i == j) _ e in_list in (h.bounded j b holder).1

  unheld : (j c : ℕ) → w.allocated ≡ c → holds (w.held j) c ≡ false
  unheld j c e = elim (Bool-cases (holds (w.held j) c)) [
    | inl there ↦ let (_, below) = h.bounded j c there in absurd (omega (arith, below, e))
    | inr free ↦ free
  ]

  elsewhere : (c : ℕ) → c < w.allocated → (w.allocated == c) ≡ false
  elsewhere c below = ground arith

  unnamed :
      (name : String) (c : ℕ)
      → w.documents name ≡ none
      → w.documents (w.docs c).name ≡ some c
      → str_eq name (w.docs c).name ≡ false
  unnamed name c free entry = elim (Bool-cases (str_eq name (w.docs c).name)) [
    | inl same ↦
        let both : none ≡ some c =
          sym free ∙ ap w.documents ((eq_iff name (w.docs c).name).0 same) ∙ entry in
        cc
    | inr other ↦ other
  ]

  found-IsReady :
      (name : String) (b : ℕ) → w.documents name ≡ some b → IsReady i b (set_held w i (some b))
  found-IsReady name b e = record {
    held = rw (==_self i) refl;
    nodes = λ j c. h.nodes j c ∙ away_same i j (some b) (w.held j) c;
    named = λ n c entry. let (same, some_user) = h.named n c entry in (same, inl some_user);
    entered = h.entered;
    entry = ap w.documents (h.named name b e).0 ∙ e;
    bounded = λ j c held_there. elim (Bool-cases (i == j)) [
      | inl own ↦
          let there = rw own at held_there in
          let same : b ≡ c = (==_iff b c).0 there in
          let mine : i ≡ j = (==_iff i j).0 own in
          let here = allocated b (h.named name b e).1 in
          (omega (arith, mine, low), omega (arith, same, here))
      | inr other ↦ let there = rw other at held_there in h.bounded j c there
    ];
  }

  abbrev created : String → World J
  created name =
      set_held
        (record (set_entry (set_doc (set_held w i none) w.allocated (new_document name)) name
          (some w.allocated)) { allocated = w.allocated + 1 })
        i (some w.allocated)

  created-IsReady : (name : String) → w.documents name ≡ none → IsReady i w.allocated (created name)
  unfolding new_document node_in
  created-IsReady name e = record {
    held = rw (==_self i) refl;
    nodes = λ j c. elim (Bool-cases (w.allocated == c)) [
      | inl here ↦ elim (Bool-cases (i == j)) [
        | inl own ↦ rw (here, own) (sym (ap weight (and-false (w.allocated == c))))
        | inr other ↦
            rw (here, other) (sym (ap (λ b. weight (b && true)) (unheld j c ((==_iff _ _).0 here))))
      ]
      | inr there ↦ rw there (
          h.nodes j c
          ∙ away_same i j none (w.held j) c
          ∙ away_same i j (some w.allocated) (if i == j then none else w.held j) c)
    ];
    named = λ n c entry. elim (Bool-cases (str_eq name n)) [
      | inl mine ↦
          let e' = rw mine at entry in
          let here : w.allocated ≡ c = some-injective _ _ e' in
          let same : (w.allocated == c) ≡ true = (==_iff _ _).1 here in
          rw same ((eq_iff name n).0 mine, inr here)
      | inr other ↦
          let e' = rw other at entry in
          let (same, some_user) = h.named n c e' in
          let far : (w.allocated == c) ≡ false = elsewhere c (allocated c some_user) in
          rw far (same, inl some_user)
    ];
    entered = λ c some_user. elim (Bool-cases (w.allocated == c)) [
      | inl here ↦ let none_there = rw here at some_user in absurd (omega (arith, none_there))
      | inr there ↦
          let user = rw there at some_user in
          let entry = h.entered c user in
          let kept = unnamed name c e entry in rw (there, kept) entry
    ];
    entry = rw (==_self w.allocated, (eq_iff name name).1 refl) refl;
    bounded = λ j c held_there. elim (Bool-cases (i == j)) [
      | inl own ↦
          let there = rw own at held_there in
          let same : w.allocated ≡ c = (==_iff _ _).0 there in
          let mine : i ≡ j = (==_iff i j).0 own in (omega (arith, mine, low), omega (arith, same))
      | inr other ↦
          let there = rw other at held_there in
          let (a, b) = h.bounded j c there in (a, omega (arith, b))
    ];
  }

  new_name : (name : String) → ((created name).docs w.allocated).name ≡ name
  unfolding new_document
  new_name name = rw (==_self w.allocated) refl

  get_document-found :
      (name : String) (b : ℕ) → w.documents name ≡ some b → get_document w name ≡ some b
  unfolding get_document lock
  get_document-found name b e =
      let alive : ltb 0 (use_count w b) ≡ true =
        ground (arith, owner w (λ j. i == j) b h (h.named name b e).1) in
      rw (e, get_document) (rw alive refl)

  get_document-missing : (name : String) → w.documents name ≡ none → get_document w name ≡ none
  unfolding get_document
  get_document-missing name e = rw (e, get_document) refl

  look_up-found :
      (name : String) (b : ℕ) → w.documents name ≡ some b → look_up w i name ≡ set_held w i (some b)
  unfolding look_up take_document
  look_up-found name b e = ap (take_document w i name) (get_document-found name b e)

  open_document-missing :
      (name : String)
      → w.documents name ≡ none
      → open_document (set_held w i none) name ≡ (
        record (set_entry
            (set_doc (set_held w i none) w.allocated (new_document name))
            name
            (some w.allocated)) { allocated = w.allocated + 1 },
        some w.allocated,
      )
  unfolding open_document
  open_document-missing name e = rw (e, open_document) refl

  look_up-created : (name : String) → w.documents name ≡ none → look_up w i name ≡ created name
  unfolding look_up take_document
  look_up-created name e =
      ap (take_document w i name) (get_document-missing name e)
      ∙ ap (λ (r : World J × Option ℕ). set_held r.0 i r.1) (open_document-missing name e)

  -- After the lookups the session holds the document that the table has under the name.
  pub look_up-IsReady :
      (name : String)
      → (a : ℕ) × IsReady i a (look_up w i name) × (((look_up w i name).docs a).name ≡ name)
  look_up-IsReady name = by_entry (w.documents name) refl
    where
      by_entry :
          (p : Option ℕ)
          → w.documents name ≡ p
          → (a : ℕ) × IsReady i a (look_up w i name) × (((look_up w i name).docs a).name ≡ name)
      by_entry none e =
          subst (λ v. (a : ℕ) × IsReady i a v × ((v.docs a).name ≡ name))
            (sym (look_up-created name e)) (w.allocated, created-IsReady name e, new_name name)
      by_entry (some b) e =
          subst (λ v. (a : ℕ) × IsReady i a v × ((v.docs a).name ≡ name))
            (sym (look_up-found name b e)) (b, found-IsReady name b e, (h.named name b e).0)
