-- ===== src/Ot/Operation.antt =====
-- src/services/document/ot.h and the three emitters of src/services/document/ot.cc. Attributes are
-- values of nlohmann::json, whose calls come as `JsonOps`. A text is the list of its bytes, and
-- uint32_t arithmetic keeps its wrap-around.
use Prim.Native.String.{String}
use jdocs.Base.{
  ℕ, ◌+◌, ◌-◌, ◌%◌, Bool, true, false, List, [], ◌∷◌, ◌++◌, Option, none, some, length, drop, ◌==◌,
  leb, if◌then◌else◌, u32_mod,
}

pub data OpType : Type 0 where
  retain insert delete : OpType

-- What ot.cc calls of nlohmann::json: `assign j key value` is `j[key] = value`.
pub record JsonOps (J : Type 0) : Type 0 where
  pub null : J
  pub is_null : J → Bool
  pub items : J → List (String × J)
  pub erase : J → String → J
  pub assign : J → String → J → J

pub record OpComponent (J : Type 0) : Type 0 where
  pub type : OpType
  pub length : ℕ
  pub text : List ℕ
  pub attributes : J

abbrev pub Operation : Type 0 → Type 0
Operation J = List (OpComponent J)

abbrev pub u32_max : ℕ
u32_max = 0xffff_ffff

-- An `OpIterator`: the components from `index_` on, and `offset_` into the first of them.
pub record OpIterator (J : Type 0) : Type 0 where
  pub rest : Operation J
  pub offset : ℕ

-- `ops.back()` is merged with the new component where `merge` gives a value; else the new one
-- goes behind it.
unfoldable pub emplace_or_merge {ℓ} : {A : Type ℓ} → (A → Option A) → A → List A → List A
emplace_or_merge merge new [] = new ∷ []
emplace_or_merge merge new (c ∷ []) = elim (merge c) [ none ↦ c ∷ new ∷ [] | some d ↦ d ∷ [] ]
emplace_or_merge merge new (c ∷ d ∷ rest) = c ∷ emplace_or_merge merge new (d ∷ rest)

module _ {J : Type 0} (json : JsonOps J) where
  unfoldable pub merge_items : J → List (String × J) → J
  merge_items result [] = result
  merge_items result ((key, value) ∷ rest) =
      merge_items
        (if json.is_null value then json.erase result key else json.assign result key value) rest

  unfoldable pub compose_attributes : (attr_new attr_old : J) → J
  unfolding merge_items
  compose_attributes attr_new attr_old =
      if json.is_null attr_new
      then attr_old
      else if json.is_null attr_old
      then attr_new
      else merge_items attr_old (json.items attr_new)

  unfoldable pub retain_component : ℕ → J → OpComponent J
  retain_component n attr = record { type = retain; length = n; text = []; attributes = attr }

  unfoldable pub insert_component : List ℕ → J → OpComponent J
  insert_component text attr = record {
    type = insert;
    length = length text % u32_mod;
    text = text;
    attributes = attr;
  }

  unfoldable pub delete_component : ℕ → OpComponent J
  delete_component n = record { type = delete; length = n; text = []; attributes = json.null }

  merge_attributes : J → J → J
  merge_attributes attr old = if json.is_null attr then old else compose_attributes attr old

  unfoldable pub merge_retain : ℕ → J → OpComponent J → Option (OpComponent J)
  unfolding merge_attributes
  merge_retain n attr back = elim back.type [
    | retain ↦ some (record back {
      length = (back.length + n) % u32_mod;
      attributes = merge_attributes attr back.attributes;
    })
    | _ ↦ none
  ]

  -- The merged component keeps its `length`, as in the source.
  unfoldable pub merge_insert : List ℕ → J → OpComponent J → Option (OpComponent J)
  unfolding merge_attributes
  merge_insert text attr back = elim back.type [
    | insert ↦ some (record back {
      text = back.text ++ text;
      attributes = merge_attributes attr back.attributes;
    })
    | _ ↦ none
  ]

  unfoldable pub merge_delete : ℕ → OpComponent J → Option (OpComponent J)
  merge_delete n back = elim back.type [
    | delete ↦ some (record back { length = (back.length + n) % u32_mod })
    | _ ↦ none
  ]

  unfoldable pub op_retain : Operation J → ℕ → J → Operation J
  unfolding emplace_or_merge merge_retain retain_component
  op_retain ops n attr =
      if n == 0 then ops else emplace_or_merge (merge_retain n attr) (retain_component n attr) ops

  unfoldable pub op_insert : Operation J → List ℕ → J → Operation J
  unfolding emplace_or_merge merge_insert insert_component
  op_insert ops text attr =
      if length text == 0
      then ops
      else emplace_or_merge (merge_insert text attr) (insert_component text attr) ops

  unfoldable pub op_delete : Operation J → ℕ → Operation J
  unfolding emplace_or_merge merge_delete delete_component
  op_delete ops n =
      if n == 0 then ops else emplace_or_merge (merge_delete n) (delete_component n) ops

  unfoldable pub iterator : Operation J → OpIterator J
  iterator op = record { rest = op; offset = 0 }

  unfoldable pub has_next : OpIterator J → Bool
  has_next it = elim it.rest [ [] ↦ false | c ∷ rest ↦ true ]

  unfoldable pub peek_at : OpComponent J → ℕ → OpComponent J
  unfolding retain_component insert_component delete_component
  peek_at c offset = elim c.type [
    | insert ↦ insert_component (drop offset c.text) c.attributes
    | delete ↦ delete_component ((c.length + u32_mod - offset) % u32_mod)
    | retain ↦ retain_component ((c.length + u32_mod - offset) % u32_mod) c.attributes
  ]

  unfoldable pub peek : OpIterator J → OpComponent J
  unfolding peek_at
  peek it = elim it.rest [
    | [] ↦ retain_component u32_max json.null
    | c ∷ rest ↦ peek_at c it.offset
  ]

  unfoldable pub next : OpIterator J → ℕ → OpIterator J
  next it n = elim it.rest [
    | [] ↦ it
    | c ∷ rest ↦
        let moved = (it.offset + n) % u32_mod in
        if leb c.length moved
        then record { rest = rest; offset = 0 }
        else record it { offset = moved }
  ]
