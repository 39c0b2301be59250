-- ===== src/Bitmap/Bits.antt =====
-- The blocks of a bitmap read as one sequence of bits.
use jdocs.Base.{
  [], ℕ, zero, suc, ◌+◌, ◌*◌, ◌/◌, ◌%◌, ◌<◌, ◌≡◌, refl, ap, ◌∙◌, Bool, false, Bool-cases, inl, inr,
  List, ◌∷◌, arith, length, set, get_or, get_or-set, if◌then◌else◌, ◌==◌, ==_iff,
}
use jdocs.Bitmap.Words.{Word, unit_size, all_zeros}

unfoldable pub bit_at : List Word → ℕ → Bool
bit_at ws j = get_or (get_or ws (j / unit_size) all_zeros) (j % unit_size) false

unfoldable pub AreWords : List Word → Type 0
AreWords [] = Unit
AreWords (w ∷ ws) = (length w ≡ unit_size) × AreWords ws

pub AreWords-set :
    (ws : List Word) (i : ℕ) (w : Word) → AreWords ws → length w ≡ unit_size → AreWords (set ws i w)
unfolding AreWords
AreWords-set [] i w h hw = h
AreWords-set (v ∷ ws) zero w (hv, h) hw = (hw, h)
AreWords-set (v ∷ ws) (suc i) w (hv, h) hw = (hv, AreWords-set ws i w h hw)

pub length-block :
    (ws : List Word) (i : ℕ) → AreWords ws → length (get_or ws i all_zeros) ≡ unit_size
unfolding AreWords
length-block [] i h = refl
length-block (w ∷ ws) zero h = h.0
length-block (w ∷ ws) (suc i) h = length-block ws i h.1

place_in_block :
    (q k j : ℕ)
    → q ≡ j / unit_size
    → k < unit_size
    → (q * unit_size + k == j) ≡ (k == j % unit_size)
place_in_block q k j e h = ground arith

other_block :
    (q k j : ℕ) → (q == j / unit_size) ≡ false → k < unit_size → (q * unit_size + k == j) ≡ false
other_block q k j e h = ground arith

-- One bit of one block is written.
pub bit_at-set :
    (ws : List Word) (q k : ℕ) (v : Bool) (j : ℕ)
    → AreWords ws
    → q < length ws
    → k < unit_size
    → bit_at (set ws q (set (get_or ws q all_zeros) k v)) j
      ≡ (if q * unit_size + k == j then v else bit_at ws j)
unfolding bit_at
bit_at-set ws q k v j h hq hk =
    let w = get_or ws q all_zeros in
    let outer = get_or-set ws q (set w k v) (j / unit_size) all_zeros hq in
    let inner = get_or-set w k v (j % unit_size) false (omega (arith, length-block ws q h, hk)) in
    elim (Bool-cases (q == j / unit_size)) [
      | inl same ↦
          let e : q ≡ j / unit_size = (==_iff q (j / unit_size)).0 same in
          let place : (q * unit_size + k == j) ≡ (k == j % unit_size) = place_in_block q k j e hk in
          let block : w ≡ get_or ws (j / unit_size) all_zeros = ap (λ i. get_or ws i all_zeros) e in
          ap (λ u. get_or u (j % unit_size) false) (outer ∙ rw same)
          ∙ inner
          ∙ rw place
              (ap (λ u. if k == j % unit_size then v else get_or u (j % unit_size) false) block)
      | inr other ↦
          let place : (q * unit_size + k == j) ≡ false = other_block q k j other hk in
          rw place (ap (λ u. get_or u (j % unit_size) false) (outer ∙ rw other))
    ]

pub bit_at-head :
    (w : Word) (ws : List Word) (j : ℕ) → j < unit_size → bit_at (w ∷ ws) j ≡ get_or w j false
unfolding bit_at
bit_at-head w ws j h =
    let block : j / unit_size ≡ 0 = omega (arith, h) in
    let place : j % unit_size ≡ j = omega (arith, h) in rw (block, place)

pub bit_at-tail :
    (w : Word) (ws : List Word) (j : ℕ) → bit_at (w ∷ ws) (unit_size + j) ≡ bit_at ws j
unfolding bit_at
bit_at-tail w ws j =
    let block : (unit_size + j) / unit_size ≡ suc (j / unit_size) = omega arith in
    let place : (unit_size + j) % unit_size ≡ j % unit_size = omega arith in rw (block, place)
