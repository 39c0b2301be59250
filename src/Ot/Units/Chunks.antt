-- ===== src/Ot/Units/Chunks.antt =====
-- How `then_units` and `rebase_units` pass over a run of equal units, which is what one round of
-- the loops of src/services/document/ot.cc does.
use jdocs.Base.{ℕ, zero, suc, ◌≡◌, refl, ap, ◌∙◌, List, [], ◌∷◌, ◌++◌, map, length, replicate}
use jdocs.Ot.Units.{Edit, keep, cut, put, then_units, rebase_units}

-- The next unit, if there is one, is no insertion.
abbrev pub NoPut : List Edit → Type 0
NoPut [] = Unit {0}
NoPut (keep ∷ us) = Unit {0}
NoPut (cut ∷ us) = Unit {0}
NoPut (put x ∷ us) = ⊥

pub then-nil : (us : List Edit) → then_units us [] ≡ us
unfolding then_units
then-nil [] = refl
then-nil (keep ∷ us) = refl
then-nil (cut ∷ us) = ap (◌∷◌ cut) (then-nil us)
then-nil (put x ∷ us) = refl

pub nil-then : (vs : List Edit) → then_units [] vs ≡ vs
unfolding then_units
nil-then [] = refl
nil-then (keep ∷ vs) = refl
nil-then (cut ∷ vs) = refl
nil-then (put x ∷ vs) = ap (◌∷◌ (put x)) (nil-then vs)

pub then-put :
    (us : List Edit) (x : ℕ) (vs : List Edit)
    → then_units us (put x ∷ vs) ≡ put x ∷ then_units us vs
unfolding then_units
then-put [] x vs = refl
then-put (keep ∷ us) x vs = refl
then-put (cut ∷ us) x vs = refl
then-put (put y ∷ us) x vs = refl

pub then-puts :
    (us : List Edit) (text : List ℕ) (vs : List Edit)
    → then_units us (map put text ++ vs) ≡ map put text ++ then_units us vs
then-puts us [] vs = refl
then-puts us (x ∷ text) vs = then-put us x _ ∙ ap (◌∷◌ (put x)) (then-puts us text vs)

pub then-cut : (us vs : List Edit) → NoPut vs → then_units (cut ∷ us) vs ≡ cut ∷ then_units us vs
unfolding then_units
then-cut us [] h = refl
then-cut us (keep ∷ vs) h = refl
then-cut us (cut ∷ vs) h = refl
then-cut us (put x ∷ vs) h = absurd h

pub then-cuts :
    (n : ℕ) (us vs : List Edit)
    → NoPut vs
    → then_units (replicate n cut ++ us) vs ≡ replicate n cut ++ then_units us vs
then-cuts zero us vs h = refl
then-cuts (suc n) us vs h = then-cut _ vs h ∙ ap (◌∷◌ cut) (then-cuts n us vs h)

pub puts-keep :
    (text : List ℕ) (us vs : List Edit)
    → then_units (map put text ++ us) (replicate (length text) keep ++ vs)
      ≡ map put text ++ then_units us vs
unfolding then_units
puts-keep [] us vs = refl
puts-keep (x ∷ text) us vs = ap (◌∷◌ (put x)) (puts-keep text us vs)

pub puts-cut :
    (text : List ℕ) (us vs : List Edit)
    → then_units (map put text ++ us) (replicate (length text) cut ++ vs) ≡ then_units us vs
unfolding then_units
puts-cut [] us vs = refl
puts-cut (x ∷ text) us vs = puts-cut text us vs

pub keeps-keep :
    (n : ℕ) (us vs : List Edit)
    → then_units (replicate n keep ++ us) (replicate n keep ++ vs)
      ≡ replicate n keep ++ then_units us vs
unfolding then_units
keeps-keep zero us vs = refl
keeps-keep (suc n) us vs = ap (◌∷◌ keep) (keeps-keep n us vs)

pub keeps-cut :
    (n : ℕ) (us vs : List Edit)
    → then_units (replicate n keep ++ us) (replicate n cut ++ vs)
      ≡ replicate n cut ++ then_units us vs
unfolding then_units
keeps-cut zero us vs = refl
keeps-cut (suc n) us vs = ap (◌∷◌ cut) (keeps-cut n us vs)

pub rebase-put :
    (us : List Edit) (x : ℕ) (vs : List Edit)
    → rebase_units us (put x ∷ vs) ≡ keep ∷ rebase_units us vs
unfolding rebase_units
rebase-put [] x vs = refl
rebase-put (keep ∷ us) x vs = refl
rebase-put (cut ∷ us) x vs = refl
rebase-put (put y ∷ us) x vs = refl

pub rebase-puts :
    (us : List Edit) (text : List ℕ) (vs : List Edit)
    → rebase_units us (map put text ++ vs) ≡ replicate (length text) keep ++ rebase_units us vs
rebase-puts us [] vs = refl
rebase-puts us (x ∷ text) vs = rebase-put us x _ ∙ ap (◌∷◌ keep) (rebase-puts us text vs)

pub put-rebase :
    (x : ℕ) (us vs : List Edit)
    → NoPut vs
    → rebase_units (put x ∷ us) vs ≡ put x ∷ rebase_units us vs
unfolding rebase_units
put-rebase x us [] h = refl
put-rebase x us (keep ∷ vs) h = refl
put-rebase x us (cut ∷ vs) h = refl
put-rebase x us (put y ∷ vs) h = absurd h

pub puts-rebase :
    (text : List ℕ) (us vs : List Edit)
    → NoPut vs
    → rebase_units (map put text ++ us) vs ≡ map put text ++ rebase_units us vs
puts-rebase [] us vs h = refl
puts-rebase (x ∷ text) us vs h = put-rebase x _ vs h ∙ ap (◌∷◌ (put x)) (puts-rebase text us vs h)

pub keep-rebase-keep :
    (n : ℕ) (us vs : List Edit)
    → rebase_units (replicate n keep ++ us) (replicate n keep ++ vs)
      ≡ replicate n keep ++ rebase_units us vs
unfolding rebase_units
keep-rebase-keep zero us vs = refl
keep-rebase-keep (suc n) us vs = ap (◌∷◌ keep) (keep-rebase-keep n us vs)

pub keep-rebase-cut :
    (n : ℕ) (us vs : List Edit)
    → rebase_units (replicate n keep ++ us) (replicate n cut ++ vs) ≡ rebase_units us vs
unfolding rebase_units
keep-rebase-cut zero us vs = refl
keep-rebase-cut (suc n) us vs = keep-rebase-cut n us vs

pub cut-rebase-keep :
    (n : ℕ) (us vs : List Edit)
    → rebase_units (replicate n cut ++ us) (replicate n keep ++ vs)
      ≡ replicate n cut ++ rebase_units us vs
unfolding rebase_units
cut-rebase-keep zero us vs = refl
cut-rebase-keep (suc n) us vs = ap (◌∷◌ cut) (cut-rebase-keep n us vs)

pub cut-rebase-cut :
    (n : ℕ) (us vs : List Edit)
    → rebase_units (replicate n cut ++ us) (replicate n cut ++ vs) ≡ rebase_units us vs
unfolding rebase_units
cut-rebase-cut zero us vs = refl
cut-rebase-cut (suc n) us vs = cut-rebase-cut n us vs

-- An operation at its end keeps what is left.
pub end-rebase-keep :
    (n : ℕ) (vs : List Edit)
    → rebase_units [] (replicate n keep ++ vs) ≡ replicate n keep ++ rebase_units [] vs
unfolding rebase_units
end-rebase-keep zero vs = refl
end-rebase-keep (suc n) vs = ap (◌∷◌ keep) (end-rebase-keep n vs)

pub end-rebase-cut :
    (n : ℕ) (vs : List Edit) → rebase_units [] (replicate n cut ++ vs) ≡ rebase_units [] vs
unfolding rebase_units
end-rebase-cut zero vs = refl
end-rebase-cut (suc n) vs = end-rebase-cut n vs

pub keep-rebase-end :
    (n : ℕ) (us : List Edit)
    → rebase_units (replicate n keep ++ us) [] ≡ replicate n keep ++ rebase_units us []
unfolding rebase_units
keep-rebase-end zero us = refl
keep-rebase-end (suc n) us = ap (◌∷◌ keep) (keep-rebase-end n us)

pub cut-rebase-end :
    (n : ℕ) (us : List Edit)
    → rebase_units (replicate n cut ++ us) [] ≡ replicate n cut ++ rebase_units us []
unfolding rebase_units
cut-rebase-end zero us = refl
cut-rebase-end (suc n) us = ap (◌∷◌ cut) (cut-rebase-end n us)
