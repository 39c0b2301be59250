-- ===== src/Ot/Fronts.antt =====
-- What one step of an iterator in src/services/document/ot.h takes off the units still to come.
use jdocs.Base.{
  ℕ, zero, suc, ◌+◌, ◌<◌, ◌≡◌, ◌≢◌, refl, sym, ap, subst, ◌∙◌, ◌⊎◌, inl, inr, true, ◌||◌, List, [],
  ◌∷◌, ◌++◌, map, arith, length, length-append, length-replicate, length-drop, drop, replicate,
  take, take-all, min, u32_mod,
}
use jdocs.Ot.Operation.{
  retain, insert, delete, JsonOps, OpComponent, Operation, OpIterator, has_next, peek, next,
}
use jdocs.Ot.Units.{Edit, keep, cut, put, component_units, units, ahead}
use jdocs.Ot.Units.Chunks.{NoPut}
use jdocs.Ot.Emit.{OpType-cases, own_units}
use jdocs.Ot.Iterate.{IsReady, Turn, passed, at_end, todo, next-Turn, Inside, AllGood, length-own}

-- `us` begins with `m` units `u`, or it has ended and `u` is the retain that does not.
pub data Front (us us' : List Edit) (u : Edit) (m : ℕ) : Type 0 where
  run : us ≡ replicate m u ++ us' → Front us us' u m
  spent : us ≡ [] → us' ≡ [] → u ≡ keep → Front us us' u m

-- The length that a front accounts for.
pub taken : {us us' : List Edit} {u : Edit} {m : ℕ} → Front us us' u m → ℕ
taken {m} (run e) = m
taken (spent e e' k) = 0

todo-end_lem : {J : Type 0} (rest : Operation J) (o : ℕ) → rest ≡ [] → ahead rest o ≡ []
todo-end_lem [] o e = refl
todo-end_lem (c ∷ rest) o e = cc

module _ {J : Type 0} {it it' : OpIterator J} {p : OpComponent J} {m : ℕ} where
  pub Front-retain : p.type ≡ retain → Turn it it' p m → Front (todo it) (todo it') keep m
  Front-retain e (passed eq _ _ _ _ _) =
      run (eq ∙ ap (λ t. component_units t m (take m p.text) ++ todo it') e)
  Front-retain e (at_end z same _ _) =
      let done = todo-end_lem it.rest it.offset z in spent done (ap todo same ∙ done) refl

  pub Front-delete : p.type ≡ delete → Turn it it' p m → Front (todo it) (todo it') cut m
  Front-delete e (passed eq _ _ _ _ _) =
      run (eq ∙ ap (λ t. component_units t m (take m p.text) ++ todo it') e)
  Front-delete e (at_end z same r _) = cc

  pub puts-insert :
      p.type ≡ insert
      → Turn it it' p m
      → (todo it ≡ map put (take m p.text) ++ todo it')
        × (length p.text ≡ p.length)
        × (p.length < u32_mod)
  puts-insert e (passed eq _ fits sized _ _) =
      (eq ∙ ap (λ t. component_units t m (take m p.text) ++ todo it') e, sized e, fits)
  puts-insert e (at_end z same r _) = cc

NoPut-run :
    {us us' : List Edit} {m : ℕ} (u : Edit) → Front us us' u m → 0 < m → NoPut (u ∷ []) → NoPut us
NoPut-run {m = zero} u f h k = absurd (omega arith)
NoPut-run {m = suc m} u (spent e _ _) h k = subst NoPut (sym e) tt
NoPut-run {m = suc m} keep (run e) h k = subst NoPut (sym e) tt
NoPut-run {m = suc m} cut (run e) h k = subst NoPut (sym e) tt
NoPut-run {m = suc m} (put x) (run e) h k = absurd k

pub length-Front :
    {us us' : List Edit} {u : Edit} {m : ℕ}
    → Front us us' u m
    → (length us ≡ m + length us') ⊎ ((length us ≡ 0) × (length us' ≡ 0))
length-Front {us'} {u} {m} (run e) =
    inl (omega (arith, ap length e, length-append (replicate m u) us', length-replicate m u))
length-Front (spent e e' _) = inr (ap length e, ap length e')

module _ {J : Type 0} (json : JsonOps J) where
  -- A single step by a whole component.
  pub step :
      (it : OpIterator J)
      → IsReady it
      → let p = peek json it in
        Turn it (next json it p.length) p p.length × IsReady (next json it p.length)
  step it r = next-Turn json it (peek json it).length r (omega arith)

  -- And so does one that shows a deletion.
  pub whole_delete :
      (it : OpIterator J)
      → IsReady it
      → let p = peek json it in
        p.type ≡ delete → todo it ≡ replicate p.length cut ++ todo (next json it p.length)
  whole_delete it r e = go (Front-delete e (step it r).0)
    where
      go :
          Front (todo it) (todo (next json it (peek json it).length)) cut (peek json it).length
          → todo it
            ≡ replicate (peek json it).length cut ++ todo (next json it (peek json it).length)
      go (run q) = q
      go (spent _ _ k) = cc

  pub length-next-lt :
      {it : OpIterator J}
      → IsReady it
      → (peek json it).type ≢ retain
      → length (next json it (peek json it).length).rest < length it.rest
  length-next-lt {it} r h = go (step it r).0
    where
      go :
          Turn it (next json it (peek json it).length) (peek json it) (peek json it).length
          → length (next json it (peek json it).length).rest < length it.rest
      go (passed _ _ _ _ _ w) = w refl
      go (at_end _ _ e _) = absurd (h e)

  -- An iterator that shows an insertion passes the whole of it.
  pub whole_insert :
      (it : OpIterator J)
      → IsReady it
      → let p = peek json it in
        p.type ≡ insert
        → (todo it ≡ map put p.text ++ todo (next json it p.length)) × (length p.text ≡ p.length)
  whole_insert it r e =
      let (shown, sized, _) = puts-insert e (step it r).0 in
      (
        shown
            ∙ ap (λ us. map put us ++ todo (next json it (peek json it).length))
                (take-all _ (peek json it).text (omega (arith, sized))),
        sized,
      )

  not-both_end :
      (a b : OpIterator J) → (has_next json a || has_next json b) ≡ true → a.rest ≡ [] → b.rest ≢ []
  unfolding has_next
  not-both_end a b h e f = ground arith

  less_left_lem :
      {a a' b b' : OpIterator J} {m : ℕ}
      → Turn a a' (peek json a) m
      → Turn b b' (peek json b) m
      → m ≡ min (peek json a).length (peek json b).length
      → (a.rest ≡ [] → b.rest ≢ [])
      → length a'.rest + length b'.rest < length a.rest + length b.rest
  less_left_lem {a} {b} {m} (passed _ _ _ _ la wa) (passed _ _ _ _ lb wb) e h =
      let s : (m ≡ (peek json a).length) ⊎ (m ≡ (peek json b).length) = omega (arith, e) in
      elim s [ inl x ↦ omega (arith, wa x, lb) | inr x ↦ omega (arith, la, wb x) ]
  less_left_lem (passed _ _ fa _ la wa) (at_end _ sb _ ub) e h =
      omega (arith, wa (omega (arith, fa, ub, e)), ap (λ it. length (OpIterator.rest it)) sb)
  less_left_lem (at_end _ sa _ ua) (passed _ _ fb _ lb wb) e h =
      omega (arith, wb (omega (arith, fb, ua, e)), ap (λ it. length (OpIterator.rest it)) sa)
  less_left_lem (at_end ea _ _ _) (at_end eb _ _ _) e h = absurd (h ea eb)

  -- When both iterators pass the shorter of their two components, that one ends.
  pub less_left :
      (a b : OpIterator J)
      → IsReady a
      → IsReady b
      → (has_next json a || has_next json b) ≡ true
      → let m = min (peek json a).length (peek json b).length in
        length (next json a m).rest + length (next json b m).rest < length a.rest + length b.rest
  less_left a b ra rb h =
      less_left_lem (next-Turn json a _ ra (omega arith)).0 (next-Turn json b _ rb (omega arith)).0
        refl (not-both_end a b h)

  pub NoPut-todo : (it : OpIterator J) → IsReady it → (peek json it).type ≢ insert → NoPut (todo it)
  NoPut-todo it r h = go (step it r).0
    where
      flat :
          Turn it (next json it (peek json it).length) (peek json it) (peek json it).length
          → 0 < (peek json it).length
          → NoPut (todo it)
      flat t pos = elim (OpType-cases (peek json it).type) [
        | inl e ↦ NoPut-run keep (Front-retain e t) pos tt
        | inr (inl e) ↦ absurd (h e)
        | inr (inr e) ↦ NoPut-run cut (Front-delete e t) pos tt
      ]

      go :
          Turn it (next json it (peek json it).length) (peek json it) (peek json it).length
          → NoPut (todo it)
      go (passed e pos f s l w) = flat (passed e pos f s l w) pos
      go (at_end z same e u) = flat (at_end z same e u) (omega (arith, u))

  todo-pos_lem :
      (rest : Operation J) (o : ℕ)
      → AllGood rest
      → Inside rest o
      → has_next json (record { rest = rest; offset = o }) ≡ true
      → 0 < length (ahead rest o)
  unfolding has_next
  todo-pos_lem [] o g h n = cc
  todo-pos_lem (c ∷ rest) o g h n = omega (
    arith,
    length-append (drop o (own_units c)) (units rest),
    length-drop o (own_units c),
    length-own c g.0,
  )

  -- While there is a component left there are units left.
  pub todo-pos :
      (a b : OpIterator J)
      → IsReady a
      → IsReady b
      → (has_next json a || has_next json b) ≡ true
      → 0 < length (todo a) + length (todo b)
  todo-pos a b ra rb h = ground (
    arith,
    todo-pos_lem a.rest a.offset ra.good ra.inside,
    todo-pos_lem b.rest b.offset rb.good rb.inside,
  )
