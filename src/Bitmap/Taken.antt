-- ===== src/Bitmap/Taken.antt =====
-- The number of bits that a mask of src/utils/bitmap.cc selects in a block.
use jdocs.Base.{
  [], ℕ, suc, ◌+◌, ◌<◌, ◌≤◌, ◌≡◌, refl, sym, ap, ◌∙◌, Bool, true, false, ◌&&◌, ◌∷◌, arith, length,
  get_or, u32_mod, Bool-cases, inl, inr,
}
use jdocs.Bitmap.Words.{Word, unit_size, word_and, popcount, is_zero}
use jdocs.Bitmap.Count.{count_below, count_below-ext}
use jdocs.Bitmap.Between.{count_from, count_below-add, count_below-inside}
use jdocs.Bitmap.Masks.{IsMask, get_or-word_and, length-word_and}
use jdocs.Bitmap.Ranges.{less_used}

abbrev bits : Word → ℕ → Bool
bits w r = get_or w r false

popcount-count : (w : Word) → popcount w ≡ count_below (bits w) (length w)
unfolding popcount count_below
popcount-count [] = refl
popcount-count (a ∷ w) =
    let one : suc (length w) ≡ 1 + length w = omega arith in
    let rest : count_from (bits (a ∷ w)) 1 (length w) ≡ count_below (bits w) (length w) =
      count_below-ext (λ i. bits (a ∷ w) (1 + i)) (bits w) (length w)
        (λ i lt. let next : 1 + i ≡ suc i = omega arith in ap (bits (a ∷ w)) next) in
    let split = count_below-add (bits (a ∷ w)) 1 (length w) in
    let total = ap (count_below (bits (a ∷ w))) one in
    omega (arith, popcount-count w, rest, split, total)

-- The bits of a block under a mask are counted as those of its stretch.
pub popcount-word_and :
    (w mask : Word) (lo n : ℕ)
    → IsMask lo n mask
    → length w ≡ unit_size
    → lo + n ≤ unit_size
    → popcount (word_and w mask) ≡ count_from (λ r. get_or w r false) lo n
popcount-word_and w mask lo n h hw le =
    popcount-count (word_and w mask)
    ∙ ap (count_below (bits (word_and w mask))) (length-word_and w mask (hw ∙ sym h.whole) ∙ hw)
    ∙ count_below-inside (bits w) (bits (word_and w mask)) lo n unit_size le
        (λ r lt. get_or-word_and w mask r ∙ ap (λ i. get_or w r false && i) (h.bits r lt))

popcount-is_zero : (w : Word) → is_zero w ≡ true → popcount w ≡ 0
unfolding popcount is_zero
popcount-is_zero [] h = refl
popcount-is_zero (true ∷ w) h = cc
popcount-is_zero (false ∷ w) h = omega (arith, popcount-is_zero w h)

-- The counter loses the taken indices of the block, if there are as many.
pub less_used-popcount :
    (used : ℕ) (w : Word)
    → used < u32_mod
    → popcount w ≤ used
    → less_used used w + popcount w ≡ used
unfolding less_used
less_used-popcount used w h le = elim (Bool-cases (is_zero w)) [
  | inl z ↦ let e = popcount-is_zero w z in rw z (omega (arith, e))
  | inr s ↦ rw s (omega (arith, h, le))
]
