-- ===== src/Service/Stuck.antt =====
-- A name in the table of src/services/document/document_service.cc whose document is destroyed: it stays
-- there, and no session can open it.
use mathlib.Core.Option.{some-injective}
use Prim.Native.String.{String}
use text.Mathlib.Text.{◌==◌ as str_eq}
use text.Mathlib.TextEquality.{eq_iff}
use jdocs.Base.{
  ℕ, ◌+◌, ◌<◌, ◌≡◌, refl, sym, ap, ◌∙◌, Bool, true, false, Bool-cases, inl, inr, Option, none, some,
  arith, ltb, ◌==◌, ==_iff, if◌then◌else◌,
}
use jdocs.Bitmap.Count.{count_below-none}
use jdocs.Document.{Document, new_document, exit_user}
use jdocs.Service.Store.{
  World, holds, use_count, set_doc, set_held, set_entry, lock, get_document, open_document,
  close_document, exit_document, leave_held, take_document,
}
use jdocs.Service.Reach.{left_world}

-- The table has the name with an address that no session holds.
pub record IsStuck {J : Type 0} (name : String) (a : ℕ) (w : World J) : Type 0 where
  pub entry : w.documents name ≡ some a
  pub unheld : (k : ℕ) → holds (w.held k) a ≡ false
  pub below : a < w.allocated

module _ {J : Type 0} (name : String) (a : ℕ) where
  pub set_held-IsStuck :
      (w : World J) (i : ℕ) (p : Option ℕ)
      → IsStuck name a w
      → holds p a ≡ false
      → IsStuck name a (set_held w i p)
  set_held-IsStuck w i p h other = record {
    entry = h.entry;
    unheld = λ k. elim (Bool-cases (i == k)) [
      | inl own ↦ rw own other
      | inr apart ↦ rw apart (h.unheld k)
    ];
    below = h.below;
  }

  set_doc-IsStuck :
      (w : World J) (b : ℕ) (d : Document J) → IsStuck name a w → IsStuck name a (set_doc w b d)
  set_doc-IsStuck w b d h = record { entry = h.entry; unheld = h.unheld; below = h.below }

  pub unowned : (w : World J) → IsStuck name a w → use_count w a ≡ 0
  unfolding use_count
  unowned w h = count_below-none (λ k. holds (w.held k) a) w.sessions (λ k lt. h.unheld k)

  pub lock-stuck : (w : World J) → IsStuck name a w → lock w a ≡ none
  unfolding lock
  lock-stuck w h = rw (unowned w h) refl

  -- What is locked is another document.
  lock-other : (w : World J) (b : ℕ) → IsStuck name a w → holds (lock w b) a ≡ false
  unfolding lock
  lock-other w b h = elim (Bool-cases (b == a)) [
    | inl same ↦
        ap (λ c. holds (lock w c) a) ((==_iff b a).0 same) ∙ ap (λ p. holds p a) (lock-stuck w h)
    | inr apart ↦ elim (Bool-cases (ltb 0 (use_count w b))) [
      | inl used ↦ rw used apart
      | inr free ↦ rw free refl
    ]
  ]

  pub get_document-other :
      (w : World J) (n : String) → IsStuck name a w → holds (get_document w n) a ≡ false
  unfolding get_document
  get_document-other w n h = by_entry (w.documents n)
    where
      by_entry : (p : Option ℕ) → holds (elim p [ none ↦ none | some b ↦ lock w b ]) a ≡ false
      by_entry none = refl
      by_entry (some b) = lock-other w b h

  -- The name is not erased: the document under it has no owner, and CloseDocument wants one.
  close_document-IsStuck :
      (w : World J) (n : String) → IsStuck name a w → IsStuck name a (close_document w n).0
  unfolding close_document
  close_document-IsStuck w n h = by_entry (w.documents n) refl
    where
      erased :
          (b : ℕ)
          → w.documents n ≡ some b
          → (use_count w b == 1) ≡ true
          → IsStuck name a (set_entry w n none)
      erased b e one = record {
        entry = elim (Bool-cases (str_eq n name)) [
          | inl same ↦
              let is : b ≡ a =
                some-injective _ _ (sym e ∙ ap w.documents ((eq_iff n name).0 same) ∙ h.entry) in
              let free = ap (use_count w) is ∙ unowned w h in absurd (ground (arith, free, one))
          | inr apart ↦ rw apart h.entry
        ];
        unheld = h.unheld;
        below = h.below;
      }

      by_entry :
          (p : Option ℕ)
          → w.documents n ≡ p
          → let r : World J × Bool = elim p [
            | none ↦ (w, false)
            | some b ↦ if use_count w b == 1 then (set_entry w n none, true) else (w, false)
          ] in
            IsStuck name a r.0
      by_entry none e = h
      by_entry (some b) e = elim (Bool-cases (use_count w b == 1)) [
        | inl one ↦ rw one (erased b e one)
        | inr more ↦ rw more h
      ]

  pub exit_document-IsStuck :
      (w : World J) (i b : ℕ) → IsStuck name a w → IsStuck name a (exit_document w i b)
  unfolding exit_document
  exit_document-IsStuck w i b h =
      let left = (exit_user (w.docs b) i).0 in
      let s = set_doc-IsStuck w b left h in
      elim (Bool-cases (exit_user (w.docs b) i).1) [
        | inl closing ↦ rw closing (close_document-IsStuck (set_doc w b left) left.name s)
        | inr staying ↦ rw staying s
      ]

  pub leave_held-IsStuck :
      (w : World J) (i : ℕ) → IsStuck name a w → IsStuck name a (leave_held w i)
  unfolding leave_held
  leave_held-IsStuck w i h = by_held (w.held i)
    where
      by_held : (p : Option ℕ) → IsStuck name a (elim p [ none ↦ w | some b ↦ exit_document w i b ])
      by_held none = h
      by_held (some b) = exit_document-IsStuck w i b h

  open_document-IsStuck :
      (w : World J) (n : String)
      → IsStuck name a w
      → IsStuck name a (open_document w n).0 × (holds (open_document w n).1 a ≡ false)
  unfolding open_document
  open_document-IsStuck w n h = by_entry (w.documents n) refl
    where
      by_entry :
          (p : Option ℕ)
          → w.documents n ≡ p
          → let r : World J × Option ℕ = elim p [
            | some b ↦ (w, lock w b)
            | none ↦ (
              record (set_entry (set_doc w w.allocated (new_document n)) n (some w.allocated)) {
                allocated = w.allocated + 1;
              },
              some w.allocated,
            )
          ] in
            IsStuck name a r.0 × (holds r.1 a ≡ false)
      by_entry (some b) e = (h, lock-other w b h)
      by_entry none e = (
        record {
          entry = elim (Bool-cases (str_eq n name)) [
            | inl same ↦
                let clash : none ≡ some a =
                  sym e ∙ ap w.documents ((eq_iff n name).0 same) ∙ h.entry in
                absurd cc
            | inr apart ↦ rw apart h.entry
          ];
          unheld = h.unheld;
          below = omega (arith, h.below);
        },
        ground (arith, h.below),
      )

  pub take_document-IsStuck :
      (w : World J) (i : ℕ) (n : String) (p : Option ℕ)
      → IsStuck name a w
      → holds p a ≡ false
      → IsStuck name a (take_document w i n p)
  unfolding take_document
  take_document-IsStuck w i n (some b) h other = set_held-IsStuck w i (some b) h other
  take_document-IsStuck w i n none h other =
      let v = set_held w i none in
      let (s, found) = open_document-IsStuck v n (set_held-IsStuck w i none h refl) in
      set_held-IsStuck (open_document v n).0 i (open_document v n).1 s found

  pub left_world-IsStuck :
      (w : World J) (b : ℕ) (left : Option (Document J))
      → IsStuck name a w
      → IsStuck name a (left_world w b left)
  left_world-IsStuck w b none h = h
  left_world-IsStuck w b (some d) h = set_doc-IsStuck w b d h
