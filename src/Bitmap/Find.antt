-- ===== src/Bitmap/Find.antt =====
-- The loop of `GetAndSetIndex` in src/utils/bitmap.cc finds the lowest free index.
use jdocs.Base.{
  [], ℕ, suc, ◌+◌, ◌-◌, ◌*◌, ◌%◌, ◌<◌, ◌≡◌, sym, ap, ◌∙◌, subst, Bool, true, false, Bool-cases, inl,
  inr, List, ◌∷◌, Option, none, some, arith, length, get_or, ltb, if◌then◌else◌, u32_mod,
}
use jdocs.Bitmap.Words.{Word, unit_size, is_ones, ctz, word_not, ctz-first, is_ones-bit}
use jdocs.Bitmap.Bits.{bit_at, AreWords, bit_at-head, bit_at-tail}
use jdocs.Bitmap.Defs.{find_free}

-- What the loop returns for the blocks from `i` on: nothing if all indices below the bound are taken,
-- otherwise a free one below which all are taken.
pub record Lowest (bit_count i : ℕ) (ws : List Word) (q k : ℕ) : Type 0 where
  pub block : ℕ
  pub at : q ≡ i + block
  pub within : block < length ws
  pub bit : k < unit_size
  pub below : q * unit_size + k < bit_count
  pub free : bit_at ws (block * unit_size + k) ≡ false
  pub taken : (j : ℕ) → j < block * unit_size + k → bit_at ws j ≡ true

abbrev pub Found : (bit_count i : ℕ) (ws : List Word) → Option (ℕ × ℕ) → Type 0
Found bit_count i ws none =
    (j : ℕ) → j < length ws * unit_size → i * unit_size + j < bit_count → bit_at ws j ≡ true
Found bit_count i ws (some (q, k)) = Lowest bit_count i ws q k

-- A place is in the first block, or behind it.
split_place :
    (w : Word) (ws : List Word) (P : Bool → Type 0) (j : ℕ)
    → (j < unit_size → P (get_or w j false))
    → ((j' : ℕ) → j ≡ unit_size + j' → P (bit_at ws j'))
    → P (bit_at (w ∷ ws) j)
split_place w ws P j early late = elim (Bool-cases (ltb j unit_size)) [
  | inl h ↦
      let h' : j < unit_size = ground arith in subst P (sym (bit_at-head w ws j h')) (early h')
  | inr h ↦
      let e : j ≡ unit_size + (j - unit_size) = ground arith in
      subst P (sym (ap (bit_at (w ∷ ws)) e ∙ bit_at-tail w ws (j - unit_size)))
        (late (j - unit_size) e)
]

full_block :
    (bit_count i : ℕ) (w : Word) (ws : List Word) (o : Option (ℕ × ℕ))
    → length w ≡ unit_size
    → is_ones w ≡ true
    → Found bit_count (i + 1) ws o
    → Found bit_count i (w ∷ ws) o
full_block bit_count i w ws none hw ones rest = λ j lt low.
    split_place w ws (λ b. b ≡ true) j (λ h. is_ones-bit w j ones (omega (arith, h, hw)))
      (λ j' e. rest j' (omega (arith, lt, e)) (omega (arith, low, e)))
full_block bit_count i w ws (some (q, k)) hw ones rest =
    let place : unit_size + (rest.block * unit_size + k) ≡ suc rest.block * unit_size + k =
      omega arith in
    record {
      block = suc rest.block;
      at = omega (arith, rest.at);
      within = omega (arith, rest.within);
      bit = rest.bit;
      below = rest.below;
      free =
          ap (bit_at (w ∷ ws)) (sym place)
          ∙ bit_at-tail w ws (rest.block * unit_size + k)
          ∙ rest.free;
      taken = λ j lt.
          split_place w ws (λ b. b ≡ true) j (λ h. is_ones-bit w j ones (omega (arith, h, hw)))
            (λ j' e. rest.taken j' (omega (arith, lt, e, place)));
    }

free_block :
    (bit_count i : ℕ) (w : Word) (ws : List Word)
    → length w ≡ unit_size
    → is_ones w ≡ false
    → let k = ctz (word_not w) in
      Found bit_count i (w ∷ ws) (if ltb (i * unit_size + k) bit_count then some (i, k) else none)
free_block bit_count i w ws hw free =
    let k = ctz (word_not w) in
    let (short, clear, first) = ctz-first w free in
    let in_block : k < unit_size = omega (arith, short, hw) in
    let start : 0 * unit_size + k ≡ k = omega arith in
    let set_bits : (j : ℕ) → j < k → bit_at (w ∷ ws) j ≡ true =
      λ j lt. bit_at-head w ws j (omega (arith, lt, in_block)) ∙ first j lt in
    elim (Bool-cases (ltb (i * unit_size + k) bit_count)) [
      | inl below ↦ rw below (record {
        block = 0;
        at = omega arith;
        within = omega arith;
        bit = in_block;
        below = ground arith;
        free = ap (bit_at (w ∷ ws)) start ∙ bit_at-head w ws k in_block ∙ clear;
        taken = λ j lt. set_bits j (omega (arith, lt));
      })
      | inr beyond ↦ rw beyond (λ j lt low. set_bits j (ground arith))
    ]

pub find_free-Found :
    (bit_count i : ℕ) (ws : List Word)
    → AreWords ws
    → (i + length ws) * unit_size < u32_mod
    → Found bit_count i ws (find_free bit_count i ws)
unfolding find_free AreWords
find_free-Found bit_count i [] h small = λ j lt low. absurd (omega (arith, lt))
find_free-Found bit_count i (w ∷ ws) (hw, h) small = elim (Bool-cases (is_ones w)) [
  | inl ones ↦ rw ones (
      full_block bit_count i w ws _ hw ones
        (find_free-Found bit_count (i + 1) ws h (omega (arith, small))))
  | inr free ↦
      let (short, _, _) = ctz-first w free in
      let whole : (i * unit_size + ctz (word_not w)) % u32_mod ≡ i * unit_size + ctz (word_not w) =
        omega (arith, small, short, hw) in
      rw (free, whole) (free_block bit_count i w ws hw free)
]
