-- ===== src/Ot/Units/Meaning.antt =====
-- What the unit versions of `compose` and `transform` do to a document.
use jdocs.Base.{ℕ, ◌+◌, ◌≤◌, ◌≡◌, refl, ap, ◌∙◌, List, [], ◌∷◌, arith, length}
use jdocs.Ot.Units.{Edit, keep, cut, put, apply, then_units, rebase_units}

-- How many characters of the document the units speak of.
abbrev pub base_length : List Edit → ℕ
base_length [] = 0
base_length (put x ∷ us) = base_length us
base_length (keep ∷ us) = base_length us + 1
base_length (cut ∷ us) = base_length us + 1

pub apply-then :
    (us vs : List Edit) (doc : List ℕ)
    → base_length us ≤ length doc
    → apply (then_units us vs) doc ≡ apply vs (apply us doc)
unfolding then_units apply
apply-then us (put x ∷ vs) doc h = ap (◌∷◌ x) (apply-then us vs doc h)
apply-then (cut ∷ us) [] [] h = absurd (omega arith)
apply-then (cut ∷ us) (keep ∷ vs) [] h = absurd (omega arith)
apply-then (cut ∷ us) (cut ∷ vs) [] h = absurd (omega arith)
apply-then (cut ∷ us) [] (c ∷ doc) h = apply-then us [] doc (omega arith)
apply-then (cut ∷ us) (keep ∷ vs) (c ∷ doc) h = apply-then us (keep ∷ vs) doc (omega arith)
apply-then (cut ∷ us) (cut ∷ vs) (c ∷ doc) h = apply-then us (cut ∷ vs) doc (omega arith)
apply-then [] [] doc h = refl
apply-then [] (keep ∷ vs) doc h = refl
apply-then [] (cut ∷ vs) doc h = refl
apply-then (put x ∷ us) [] doc h = refl
apply-then (put x ∷ us) (keep ∷ vs) doc h = ap (◌∷◌ x) (apply-then us vs doc h)
apply-then (put x ∷ us) (cut ∷ vs) doc h = apply-then us vs doc h
apply-then (keep ∷ us) [] doc h = refl
apply-then (keep ∷ us) (keep ∷ vs) [] h = absurd (omega arith)
apply-then (keep ∷ us) (cut ∷ vs) [] h = absurd (omega arith)
apply-then (keep ∷ us) (keep ∷ vs) (c ∷ doc) h = ap (◌∷◌ c) (apply-then us vs doc (omega arith))
apply-then (keep ∷ us) (cut ∷ vs) (c ∷ doc) h = apply-then us vs doc (omega arith)

-- The document with two independent edits in it: a character stays if neither cuts it, and at one
-- place the insertion of `vs` stands before that of `us`.
unfoldable pub merge : (us vs : List Edit) (doc : List ℕ) → List ℕ
merge us (put x ∷ vs) doc = x ∷ merge us vs doc
merge (put x ∷ us) vs doc = x ∷ merge us vs doc
merge [] vs doc = apply vs doc
merge us [] doc = apply us doc
merge (u ∷ us) (v ∷ vs) [] = merge us vs []
merge (keep ∷ us) (keep ∷ vs) (c ∷ doc) = c ∷ merge us vs doc
merge (_ ∷ us) (_ ∷ vs) (c ∷ doc) = merge us vs doc

merge-nil : (vs : List Edit) (doc : List ℕ) → merge [] vs doc ≡ apply vs doc
unfolding merge apply
merge-nil [] doc = refl
merge-nil (keep ∷ vs) doc = refl
merge-nil (cut ∷ vs) doc = refl
merge-nil (put x ∷ vs) doc = ap (◌∷◌ x) (merge-nil vs doc)

rebase-nil : (us : List Edit) → rebase_units us [] ≡ us
unfolding rebase_units
rebase-nil [] = refl
rebase-nil (keep ∷ us) = ap (◌∷◌ keep) (rebase-nil us)
rebase-nil (cut ∷ us) = ap (◌∷◌ cut) (rebase-nil us)
rebase-nil (put x ∷ us) = ap (◌∷◌ (put x)) (rebase-nil us)

pub apply-rebase :
    (us vs : List Edit) (doc : List ℕ)
    → base_length us ≤ length doc
    → base_length vs ≤ length doc
    → apply (rebase_units us vs) (apply vs doc) ≡ merge us vs doc
unfolding rebase_units apply merge
apply-rebase us (put x ∷ vs) doc h k = ap (◌∷◌ x) (apply-rebase us vs doc h k)
apply-rebase (put x ∷ us) [] doc h k = ap (◌∷◌ x) (apply-rebase us [] doc h k)
apply-rebase (put x ∷ us) (keep ∷ vs) doc h k = ap (◌∷◌ x) (apply-rebase us (keep ∷ vs) doc h k)
apply-rebase (put x ∷ us) (cut ∷ vs) doc h k = ap (◌∷◌ x) (apply-rebase us (cut ∷ vs) doc h k)
apply-rebase [] [] doc h k = refl
apply-rebase [] (keep ∷ vs) [] h k = absurd (omega arith)
apply-rebase [] (cut ∷ vs) [] h k = absurd (omega arith)
apply-rebase [] (keep ∷ vs) (c ∷ doc) h k =
    ap (◌∷◌ c) (apply-rebase [] vs doc (omega arith) (omega arith) ∙ merge-nil vs doc)
apply-rebase [] (cut ∷ vs) (c ∷ doc) h k =
    apply-rebase [] vs doc (omega arith) (omega arith) ∙ merge-nil vs doc
apply-rebase (keep ∷ us) [] doc h k = rw (rebase-nil us)
apply-rebase (cut ∷ us) [] doc h k = rw (rebase-nil us)
apply-rebase (keep ∷ us) (keep ∷ vs) [] h k = absurd (omega arith)
apply-rebase (keep ∷ us) (cut ∷ vs) [] h k = absurd (omega arith)
apply-rebase (cut ∷ us) (keep ∷ vs) [] h k = absurd (omega arith)
apply-rebase (cut ∷ us) (cut ∷ vs) [] h k = absurd (omega arith)
apply-rebase (keep ∷ us) (keep ∷ vs) (c ∷ doc) h k =
    ap (◌∷◌ c) (apply-rebase us vs doc (omega arith) (omega arith))
apply-rebase (keep ∷ us) (cut ∷ vs) (c ∷ doc) h k =
    apply-rebase us vs doc (omega arith) (omega arith)
apply-rebase (cut ∷ us) (keep ∷ vs) (c ∷ doc) h k =
    apply-rebase us vs doc (omega arith) (omega arith)
apply-rebase (cut ∷ us) (cut ∷ vs) (c ∷ doc) h k =
    apply-rebase us vs doc (omega arith) (omega arith)
