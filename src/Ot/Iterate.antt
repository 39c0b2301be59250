-- ===== src/Ot/Iterate.antt =====
-- What `peek` and `next` of the `OpIterator` in src/services/document/ot.h do on a well-formed
-- operation.
use jdocs.Base.{
  ℕ, ◌+◌, ◌-◌, ◌%◌, ◌≤◌, ◌<◌, ◌≡◌, refl, sym, ap, ap₂, ◌∙◌, inl, inr, List, [], ◌∷◌, ◌++◌,
  append_assoc, arith, length, length-replicate, length-map, length-drop, take, drop, drop-map,
  take-map, take-all, take-append-drop, drop-drop, take-drop-replicate, leb, Bool-cases, u32_mod,
}
use jdocs.Ot.Operation.{
  OpType, retain, insert, delete, JsonOps, OpComponent, Operation, OpIterator, u32_max,
  retain_component, peek_at, peek, next,
}
use jdocs.Ot.Units.{Edit, keep, cut, put, component_units, units, ahead}
use jdocs.Ot.Emit.{own_units}

-- A component as the server's clients are meant to send it.
pub record IsGood {J : Type 0} (c : OpComponent J) : Type 0 where
  pub positive : 0 < c.length
  pub fits : c.length < u32_mod
  pub sized : c.type ≡ insert → length c.text ≡ c.length

abbrev pub AllGood : {J : Type 0} → Operation J → Type 0
AllGood [] = Unit {0}
AllGood (c ∷ rest) = IsGood c × AllGood rest

abbrev pub Inside : {J : Type 0} → Operation J → ℕ → Type 0
Inside [] offset = Unit {0}
Inside (c ∷ rest) offset = offset < c.length

pub record IsReady {J : Type 0} (it : OpIterator J) : Type 0 where
  pub good : AllGood it.rest
  pub inside : Inside it.rest it.offset

abbrev pub todo : {J : Type 0} → OpIterator J → List Edit
todo it = ahead it.rest it.offset

pub ahead-zero : {J : Type 0} (ops : Operation J) → ahead ops 0 ≡ units ops
ahead-zero [] = refl
ahead-zero (c ∷ rest) = refl

module _ {J : Type 0} (json : JsonOps J) where
  abbrev component : OpType → ℕ → List ℕ → J → OpComponent J
  component t n text attr = record { type = t; length = n; text = text; attributes = attr }

  pub peek_at-type : (c : OpComponent J) (o : ℕ) → (peek_at json c o).type ≡ c.type
  unfolding peek_at
  peek_at-type c o = ground arith

  peek_at-length_lem :
      (t : OpType) (n : ℕ) (text : List ℕ) (attr : J) (o : ℕ)
      → IsGood (component t n text attr)
      → o < n
      → (peek_at json (component t n text attr) o).length ≡ n - o
  unfolding peek_at
  peek_at-length_lem retain n text attr o g h = omega (arith, g.fits)
  peek_at-length_lem delete n text attr o g h = omega (arith, g.fits)
  peek_at-length_lem insert n text attr o g h =
      omega (arith, g.fits, length-drop o text, g.sized refl)

  pub peek_at-length :
      (c : OpComponent J) (o : ℕ)
      → IsGood c
      → o < c.length
      → (peek_at json c o).length ≡ c.length - o
  peek_at-length c = peek_at-length_lem c.type c.length c.text c.attributes

  peek_at-chunk_lem :
      (t : OpType) (n : ℕ) (text : List ℕ) (attr : J) (o m : ℕ)
      → o + m ≤ n
      → component_units t m (take m (peek_at json (component t n text attr) o).text)
        ≡ take m (drop o (component_units t n text))
  unfolding peek_at
  peek_at-chunk_lem retain n text attr o m h = sym (take-drop-replicate m o n keep h)
  peek_at-chunk_lem delete n text attr o m h = sym (take-drop-replicate m o n cut h)
  peek_at-chunk_lem insert n text attr o m h =
      rw (drop-map o text put) (sym (take-map m (drop o text) put))

  peek_at-chunk :
      (c : OpComponent J) (o m : ℕ)
      → o + m ≤ c.length
      → let p = peek_at json c o in
        component_units p.type m (take m p.text) ≡ take m (drop o (own_units c))
  peek_at-chunk c o m h =
      ap (λ t. component_units t m (take m (peek_at json c o).text)) (peek_at-type c o)
      ∙ peek_at-chunk_lem c.type c.length c.text c.attributes o m h

  peek_at-sized_lem :
      (t : OpType) (n : ℕ) (text : List ℕ) (attr : J) (o : ℕ)
      → IsGood (component t n text attr)
      → t ≡ insert
      → length (peek_at json (component t n text attr) o).text ≡ n - o
  unfolding peek_at
  peek_at-sized_lem retain n text attr o g e = cc
  peek_at-sized_lem delete n text attr o g e = cc
  peek_at-sized_lem insert n text attr o g e = omega (arith, length-drop o text, g.sized refl)

module _ {J : Type 0} (json : JsonOps J) where
  peek_at-sized :
      (c : OpComponent J) (o : ℕ)
      → IsGood c
      → o < c.length
      → (peek_at json c o).type ≡ insert
      → length (peek_at json c o).text ≡ (peek_at json c o).length
  peek_at-sized c o g h e =
      peek_at-sized_lem json c.type c.length c.text c.attributes o g
        (sym (peek_at-type json c o) ∙ e)
      ∙ sym (peek_at-length json c o g h)

length-own_lem :
    (t : OpType) (n : ℕ) (text : List ℕ)
    → (t ≡ insert → length text ≡ n)
    → length (component_units t n text) ≡ n
length-own_lem retain n text s = length-replicate n keep
length-own_lem delete n text s = length-replicate n cut
length-own_lem insert n text s = length-map text put ∙ s refl

pub length-own : {J : Type 0} (c : OpComponent J) → IsGood c → length (own_units c) ≡ c.length
length-own c g = length-own_lem c.type c.length c.text g.sized

pub Inside-zero : {J : Type 0} (ops : Operation J) → AllGood ops → Inside ops 0
Inside-zero [] g = tt
Inside-zero (c ∷ rest) g = g.0.positive

-- One step of an iterator by `m`, where `peek` showed `p`: it passes `m` units, which stand at its
-- front, or it has come to its end and shows a retain that does not end.
pub data Turn {J : Type 0} (it it' : OpIterator J) (p : OpComponent J) (m : ℕ) : Type 0 where
  passed :
      todo it ≡ component_units p.type m (take m p.text) ++ todo it'
      → 0 < p.length
      → p.length < u32_mod
      → (p.type ≡ insert → length p.text ≡ p.length)
      → length it'.rest ≤ length it.rest
      → (m ≡ p.length → length it'.rest < length it.rest)
      → Turn it it' p m
  at_end : it.rest ≡ [] → it' ≡ it → p.type ≡ retain → p.length ≡ u32_max → Turn it it' p m

module _ {J : Type 0} (json : JsonOps J) where
  -- The component ends with this step.
  next-last :
      (c : OpComponent J) (rest : Operation J) (o m : ℕ)
      → IsGood c
      → o < c.length
      → o + m ≡ c.length
      → Turn
          (record { rest = c ∷ rest; offset = o })
          (record { rest = rest; offset = 0 })
          (peek_at json c o)
          m
  next-last c rest o m g h e =
      let n = peek_at-length json c o g h in
      passed
        (ap₂ ◌++◌
          (sym (
              take-all m (drop o (own_units c))
                (omega (arith, length-drop o (own_units c), length-own c g)))
            ∙ sym (peek_at-chunk json c o m (omega arith)))
          (sym (ahead-zero rest)))
        (omega (arith, n)) (omega (arith, n, g.fits)) (peek_at-sized json c o g h) (omega arith)
        (λ _. omega arith)

  next-within :
      (c : OpComponent J) (rest : Operation J) (o m : ℕ)
      → IsGood c
      → o + m < c.length
      → Turn
          (record { rest = c ∷ rest; offset = o })
          (record { rest = c ∷ rest; offset = o + m })
          (peek_at json c o)
          m
  next-within c rest o m g h =
      let n = peek_at-length json c o g (omega arith) in
      passed
        (ap (λ us. us ++ units rest)
            (sym (take-append-drop m (drop o (own_units c)))
              ∙ ap₂ ◌++◌ (sym (peek_at-chunk json c o m (omega arith)))
                  (drop-drop o m (own_units c)))
          ∙ append_assoc _ (drop (o + m) (own_units c)) (units rest))
        (omega (arith, n)) (omega (arith, n, g.fits)) (peek_at-sized json c o g (omega arith))
        (omega arith) (λ e. absurd (omega (arith, n)))

  next-Turn_lem :
      (rest : Operation J) (o m : ℕ)
      → AllGood rest
      → Inside rest o
      → let it : OpIterator J = record { rest = rest; offset = o } in
        m ≤ (peek json it).length
        → Turn it (next json it m) (peek json it) m × IsReady (next json it m)
  unfolding peek next retain_component
  next-Turn_lem [] o m g h k = (at_end refl refl refl refl, record { good = tt; inside = tt })
  next-Turn_lem (c ∷ rest) o m g h k =
      let n : (peek_at json c o).length ≡ c.length - o = peek_at-length json c o g.0 h in
      let w : (o + m) % u32_mod ≡ o + m = omega (arith, n, k, g.0.fits) in
      elim (Bool-cases (leb c.length (o + m))) [
        | inl q ↦
            rw (w, q)
              (
                next-last c rest o m g.0 h (ground (arith, n, k)),
                record { good = g.1; inside = Inside-zero rest g.1 },
              )
        | inr q ↦
            rw (w, q)
              (
                next-within c rest o m g.0 (ground arith),
                record { good = g; inside = ground arith },
              )
      ]

  pub next-Turn :
      (it : OpIterator J) (m : ℕ)
      → IsReady it
      → m ≤ (peek json it).length
      → Turn it (next json it m) (peek json it) m × IsReady (next json it m)
  next-Turn it m r h = next-Turn_lem it.rest it.offset m r.good r.inside h
