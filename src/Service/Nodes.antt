-- ===== src/Service/Nodes.antt =====
-- User lists and shared pointers of src/services/document, counted.
use jdocs.Base.{
  ℕ, ◌+◌, ◌<◌, ◌≡◌, refl, ap, Bool, true, false, Bool-cases, inl, inr, List, [], ◌∷◌, arith, length,
  ◌==◌, if◌then◌else◌,
}
use jdocs.Bitmap.Count.{weight, count_below, count_below-pos, count_below-set, count_below-none}
use jdocs.Document.{UserNode, erase_node}
use jdocs.Service.Store.{World, holds, use_count}

-- How often a node is in a user list.
unfoldable pub node_in : (node : ℕ) → List UserNode → ℕ
node_in node [] = 0
node_in node (u ∷ us) = (if u.node == node then 1 else 0) + node_in node us

pub node_in-empty : (i : ℕ) (us : List UserNode) → length us ≡ 0 → node_in i us ≡ 0
unfolding node_in
node_in-empty i [] h = refl
node_in-empty i (u ∷ us) h = absurd (omega (arith, h))

pub node_in-length : (i : ℕ) (us : List UserNode) → 0 < node_in i us → 0 < length us
unfolding node_in
node_in-length i [] h = absurd (omega (arith, h))
node_in-length i (u ∷ us) h = omega arith

pub node_in-some : (us : List UserNode) → 0 < length us → (i : ℕ) × (0 < node_in i us)
unfolding node_in
node_in-some [] h = absurd (omega (arith, h))
node_in-some (u ∷ us) h = (u.node, ground arith)

pub node_in-erase_self :
    (i : ℕ) (us : List UserNode) → node_in i us ≡ 1 → node_in i (erase_node i us) ≡ 0
unfolding node_in erase_node
node_in-erase_self i [] h = refl
node_in-erase_self i (u ∷ us) h = ground (arith, h, node_in-erase_self i us)

pub node_in-erase_other :
    (i j : ℕ) (us : List UserNode) → (i == j) ≡ false → node_in j (erase_node i us) ≡ node_in j us
unfolding node_in erase_node
node_in-erase_other i j [] h = refl
node_in-erase_other i j (u ∷ us) h = ground (arith, h, node_in-erase_other i j us h)

module _ {J : Type 0} (w : World J) (a : ℕ) where
  pub use_count-pos : (i : ℕ) → holds (w.held i) a ≡ true → i < w.sessions → 0 < use_count w a
  unfolding use_count
  use_count-pos i h lt = count_below-pos (λ j. holds (w.held j) a) w.sessions i h lt

  pub use_count-one :
      (i : ℕ)
      → holds (w.held i) a ≡ true
      → i < w.sessions
      → ((j : ℕ) → (i == j) ≡ false → holds (w.held j) a ≡ false)
      → use_count w a ≡ 1
  unfolding use_count
  use_count-one i h lt alone =
      let p : ℕ → Bool = λ j. holds (w.held j) a in
      let q : ℕ → Bool = λ j. if i == j then false else p j in
      let changed = count_below-set p q w.sessions i false (λ j. refl) lt in
      let nobody : count_below q w.sessions ≡ 0 = count_below-none q w.sessions (λ j _.
        elim (Bool-cases (i == j)) [
          | inl own ↦ rw own refl
          | inr other ↦ rw other (alone j other)
        ]) in
      let one : weight (p i) ≡ 1 = ap weight h in omega (arith, changed, nobody, one)
