-- ===== src/Ot/Units.antt =====
-- An operation read one character at a time: what `transform` and `compose` of ot.cc mean. A list of
-- units that ends keeps the rest of the document.
pub mod Chunks
pub mod Meaning
use jdocs.Base.{ℕ, List, [], ◌∷◌, ◌++◌, map, replicate, drop}
use jdocs.Ot.Operation.{OpType, retain, insert, delete, Operation}

pub data Edit : Type 0 where
  keep cut : Edit
  put : ℕ → Edit

abbrev pub component_units : OpType → ℕ → List ℕ → List Edit
component_units retain n text = replicate n keep
component_units delete n text = replicate n cut
component_units insert n text = map put text

-- The units of an operation; the `length` of an insertion has no part in it.
abbrev pub units : {J : Type 0} → Operation J → List Edit
units [] = []
units (c ∷ rest) = component_units c.type c.length c.text ++ units rest

-- The units that an iterator has not passed yet.
abbrev pub ahead : {J : Type 0} → Operation J → ℕ → List Edit
ahead [] offset = []
ahead (c ∷ rest) offset = drop offset (component_units c.type c.length c.text) ++ units rest

unfoldable pub apply : List Edit → List ℕ → List ℕ
apply [] doc = doc
apply (put x ∷ us) doc = x ∷ apply us doc
apply (keep ∷ us) [] = apply us []
apply (keep ∷ us) (x ∷ doc) = x ∷ apply us doc
apply (cut ∷ us) [] = apply us []
apply (cut ∷ us) (x ∷ doc) = apply us doc

-- First `us`, then `vs` on what `us` leaves.
unfoldable pub then_units : (us vs : List Edit) → List Edit
then_units us (put x ∷ vs) = put x ∷ then_units us vs
then_units (cut ∷ us) vs = cut ∷ then_units us vs
then_units [] vs = vs
then_units (put x ∷ us) [] = put x ∷ us
then_units (put x ∷ us) (keep ∷ vs) = put x ∷ then_units us vs
then_units (put x ∷ us) (cut ∷ vs) = then_units us vs
then_units (keep ∷ us) [] = keep ∷ us
then_units (keep ∷ us) (keep ∷ vs) = keep ∷ then_units us vs
then_units (keep ∷ us) (cut ∷ vs) = cut ∷ then_units us vs

-- `us`, made for the document before `vs`, on the document after it. At one place the
-- insertion of `vs` comes first.
unfoldable pub rebase_units : (us vs : List Edit) → List Edit
rebase_units us (put x ∷ vs) = keep ∷ rebase_units us vs
rebase_units (put x ∷ us) vs = put x ∷ rebase_units us vs
rebase_units [] [] = []
rebase_units [] (keep ∷ vs) = keep ∷ rebase_units [] vs
rebase_units [] (cut ∷ vs) = rebase_units [] vs
rebase_units (keep ∷ us) [] = keep ∷ rebase_units us []
rebase_units (keep ∷ us) (keep ∷ vs) = keep ∷ rebase_units us vs
rebase_units (keep ∷ us) (cut ∷ vs) = rebase_units us vs
rebase_units (cut ∷ us) [] = cut ∷ rebase_units us []
rebase_units (cut ∷ us) (keep ∷ vs) = cut ∷ rebase_units us vs
rebase_units (cut ∷ us) (cut ∷ vs) = rebase_units us vs
