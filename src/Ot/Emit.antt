-- ===== src/Ot/Emit.antt =====
-- What the emitters `OpRetain`, `OpInsert` and `OpDelete` of src/services/document/ot.cc add to the
-- units of a result.
use native.Mathlib.Nat.{zero-add, suc-add}
use jdocs.Base.{
  length-map, eq-nil_of_length, ==_iff, ◌%◌, ℕ, zero, suc, ◌+◌, ◌<◌, ◌≡◌, refl, sym, ap, ◌∙◌, ◌⊎◌,
  inl, inr, List, [], ◌∷◌, ◌++◌, map, Option, some, append-nil, append_assoc, map-append, arith,
  length, length-append, length-replicate, replicate, ◌==◌, if◌then◌else◌, Bool, true, false,
  Option-cases, u32_mod,
}
use jdocs.Ot.Operation.{
  OpType, retain, insert, delete, JsonOps, OpComponent, Operation, emplace_or_merge, merge_retain,
  merge_insert, merge_delete, retain_component, insert_component, delete_component, op_retain,
  op_insert, op_delete,
}
use jdocs.Ot.Units.{Edit, keep, cut, put, component_units, units}

pub replicate-add {ℓ} :
    {A : Type ℓ} (m n : ℕ) (a : A) → replicate (m + n) a ≡ replicate m a ++ replicate n a
replicate-add zero n a = rw (zero-add n)
replicate-add (suc m) n a = rw (suc-add m n) (ap (◌∷◌ a) (replicate-add m n a))

abbrev pub own_units : {J : Type 0} → OpComponent J → List Edit
own_units c = component_units c.type c.length c.text

module _ {J : Type 0} (c : OpComponent J) where
  pub own_units-retain : c.type ≡ retain → own_units c ≡ replicate c.length keep
  own_units-retain e = ap (λ t. component_units t c.length c.text) e

  pub own_units-delete : c.type ≡ delete → own_units c ≡ replicate c.length cut
  own_units-delete e = ap (λ t. component_units t c.length c.text) e

  pub own_units-insert : c.type ≡ insert → own_units c ≡ map put c.text
  own_units-insert e = ap (λ t. component_units t c.length c.text) e

pub OpType-cases : (t : OpType) → (t ≡ retain) ⊎ (t ≡ insert) ⊎ (t ≡ delete)
OpType-cases retain = inl refl
OpType-cases insert = inr (inl refl)
OpType-cases delete = inr (inr refl)

-- A merge that adds `extra` to the units of the last component adds it to the operation's.
module _ {J : Type 0} (merge : OpComponent J → Option (OpComponent J)) (new : OpComponent J)
    (extra : List Edit) (e : own_units new ≡ extra)
    (m : (c d : OpComponent J)
      → merge c ≡ some d
      → length (own_units c) + length extra < u32_mod
      → own_units d ≡ own_units c ++ extra) where
  emplace-units :
      (ops : Operation J)
      → length (units ops) + length extra < u32_mod
      → units (emplace_or_merge merge new ops) ≡ units ops ++ extra
  unfolding emplace_or_merge
  emplace-units [] h = rw e (append-nil extra)
  emplace-units (c ∷ []) h = elim (Option-cases (merge c)) [
    | inl q ↦ rw (q, units) (rw (e, append-nil extra, append-nil (own_units c)))
    | inr (d, q) ↦
        rw (q, units)
          (rw (append-nil (own_units d), append-nil (own_units c))
            (m c d q (omega (arith, length-append (own_units c) []))))
  ]
  emplace-units (c ∷ d ∷ rest) h =
      ap (◌++◌ (own_units c))
        (emplace-units (d ∷ rest) (omega (arith, length-append (own_units c) (units (d ∷ rest)))))
      ∙ sym (append_assoc (own_units c) (units (d ∷ rest)) extra)

  emit-units :
      (skip : Bool) (ops : Operation J)
      → (skip ≡ true → extra ≡ [])
      → length (units ops) + length extra < u32_mod
      → units (if skip then ops else emplace_or_merge merge new ops) ≡ units ops ++ extra
  emit-units true ops z h = rw (z refl) (sym (append-nil (units ops)))
  emit-units false ops z h = emplace-units ops h

module _ {J : Type 0} (json : JsonOps J) where
  merge_retain-units :
      (n : ℕ) (attr : J) (c d : OpComponent J)
      → merge_retain json n attr c ≡ some d
      → length (own_units c) + length (replicate n keep) < u32_mod
      → own_units d ≡ own_units c ++ replicate n keep
  unfolding merge_retain
  merge_retain-units n attr c d q h =
      let s : (c.type ≡ retain) × (d.type ≡ retain) × (d.length ≡ (c.length + n) % u32_mod) =
        ground arith in
      let r : own_units c ≡ replicate c.length keep = own_units-retain c s.0 in
      let len : length (own_units c) ≡ c.length = ap length r ∙ length-replicate c.length keep in
      own_units-retain d s.1
      ∙ ap (λ k. replicate k keep) (omega (arith, s.2, len, h, length-replicate n keep))
      ∙ replicate-add c.length n keep
      ∙ ap (λ us. us ++ replicate n keep) (sym r)

  merge_delete-units :
      (n : ℕ) (c d : OpComponent J)
      → merge_delete json n c ≡ some d
      → length (own_units c) + length (replicate n cut) < u32_mod
      → own_units d ≡ own_units c ++ replicate n cut
  unfolding merge_delete
  merge_delete-units n c d q h =
      let s : (c.type ≡ delete) × (d.type ≡ delete) × (d.length ≡ (c.length + n) % u32_mod) =
        ground arith in
      let r : own_units c ≡ replicate c.length cut = own_units-delete c s.0 in
      let len : length (own_units c) ≡ c.length = ap length r ∙ length-replicate c.length cut in
      own_units-delete d s.1
      ∙ ap (λ k. replicate k cut) (omega (arith, s.2, len, h, length-replicate n cut))
      ∙ replicate-add c.length n cut
      ∙ ap (λ us. us ++ replicate n cut) (sym r)

  merge_insert-units :
      (text : List ℕ) (attr : J) (c d : OpComponent J)
      → merge_insert json text attr c ≡ some d
      → own_units d ≡ own_units c ++ map put text
  unfolding merge_insert
  merge_insert-units text attr c d q =
      let s : (c.type ≡ insert) × (d.type ≡ insert) × (d.text ≡ c.text ++ text) = ground arith in
      own_units-insert d s.1
      ∙ ap (map put) s.2
      ∙ map-append put c.text text
      ∙ ap (λ us. us ++ map put text) (sym (own_units-insert c s.0))

  pub units-op_retain :
      (ops : Operation J) (n : ℕ) (attr : J)
      → length (units ops) + n < u32_mod
      → units (op_retain json ops n attr) ≡ units ops ++ replicate n keep
  unfolding op_retain
  units-op_retain ops n attr h =
      emit-units (merge_retain json n attr) (retain_component json n attr) (replicate n keep) refl
        (merge_retain-units n attr) (n == 0) ops
        (λ z. ap (λ k. replicate k keep) ((==_iff n 0).0 z)) (rw (length-replicate n keep) h)

  pub units-op_delete :
      (ops : Operation J) (n : ℕ)
      → length (units ops) + n < u32_mod
      → units (op_delete json ops n) ≡ units ops ++ replicate n cut
  unfolding op_delete
  units-op_delete ops n h =
      emit-units (merge_delete json n) (delete_component json n) (replicate n cut) refl
        (merge_delete-units n) (n == 0) ops (λ z. ap (λ k. replicate k cut) ((==_iff n 0).0 z))
        (rw (length-replicate n cut) h)

  pub units-op_insert :
      (ops : Operation J) (text : List ℕ) (attr : J)
      → length (units ops) + length text < u32_mod
      → units (op_insert json ops text attr) ≡ units ops ++ map put text
  unfolding op_insert
  units-op_insert ops text attr h =
      emit-units (merge_insert json text attr) (insert_component json text attr) (map put text) refl
        (λ c d q _. merge_insert-units text attr c d q) (length text == 0) ops
        (λ z. ap (map put) (eq-nil_of_length text ((==_iff _ _).0 z))) (rw (length-map text put) h)
