-- ===== src/Bitmap/Masks.antt =====
-- The masks of the ranges in src/utils/bitmap.cc, bit by bit.
use jdocs.Base.{
  [], ℕ, zero, suc, ◌+◌, ◌-◌, ◌*◌, ◌/◌, ◌%◌, ◌<◌, ◌≤◌, ◌≡◌, refl, sym, ap, ap₂, ◌∙◌, Bool, true,
  false, not, ◌&&◌, ◌||◌, Bool-cases, inl, inr, ◌∷◌, ◌++◌, arith, length, length-append,
  length-replicate, get_or, replicate, ltb, ◌==◌, if◌then◌else◌,
}
use jdocs.Bitmap.Words.{
  Word, unit_size, word_and, word_or, word_not, ones_below, all_ones, is_zero, and-false, and-true,
  or-false, or-true,
}
use jdocs.Bitmap.Between.{inside}
use jdocs.Bitmap.Ranges.{put_mask, low_mask, high_mask}

pub get_or-word_and :
    (v w : Word) (r : ℕ) → get_or (word_and v w) r false ≡ (get_or v r false && get_or w r false)
unfolding word_and
get_or-word_and [] w r = refl
get_or-word_and (a ∷ v) [] r = sym (and-false (get_or (a ∷ v) r false))
get_or-word_and (a ∷ v) (b ∷ w) zero = refl
get_or-word_and (a ∷ v) (b ∷ w) (suc r) = get_or-word_and v w r

get_or-word_or :
    (v w : Word) (r : ℕ)
    → length v ≡ length w
    → get_or (word_or v w) r false ≡ (get_or v r false || get_or w r false)
unfolding word_or
get_or-word_or [] [] r h = refl
get_or-word_or [] (b ∷ w) r h = absurd (omega (arith, h))
get_or-word_or (a ∷ v) [] r h = absurd (omega (arith, h))
get_or-word_or (a ∷ v) (b ∷ w) zero h = refl
get_or-word_or (a ∷ v) (b ∷ w) (suc r) h = get_or-word_or v w r (omega (arith, h))

get_or-word_not :
    (w : Word) (r : ℕ) → r < length w → get_or (word_not w) r false ≡ not (get_or w r false)
unfolding word_not
get_or-word_not [] r h = absurd (omega (arith, h))
get_or-word_not (a ∷ w) zero h = refl
get_or-word_not (a ∷ w) (suc r) h = get_or-word_not w r (omega (arith, h))

pub length-word_and : (v w : Word) → length v ≡ length w → length (word_and v w) ≡ length v
unfolding word_and
length-word_and [] w h = refl
length-word_and (a ∷ v) [] h = absurd (omega (arith, h))
length-word_and (a ∷ v) (b ∷ w) h = ap suc (length-word_and v w (omega (arith, h)))

length-word_or : (v w : Word) → length v ≡ length w → length (word_or v w) ≡ length v
unfolding word_or
length-word_or [] w h = refl
length-word_or (a ∷ v) [] h = absurd (omega (arith, h))
length-word_or (a ∷ v) (b ∷ w) h = ap suc (length-word_or v w (omega (arith, h)))

length-word_not : (w : Word) → length (word_not w) ≡ length w
unfolding word_not
length-word_not [] = refl
length-word_not (a ∷ w) = ap suc (length-word_not w)

get_or-high : (n r : ℕ) → get_or (replicate n false) r false ≡ false
get_or-high zero r = refl
get_or-high (suc n) zero = refl
get_or-high (suc n) (suc r) = get_or-high n r

get_or-low : (k : ℕ) (w : Word) (r : ℕ) → r < k → get_or (replicate k true ++ w) r false ≡ true
get_or-low zero w r h = absurd (omega (arith, h))
get_or-low (suc k) w zero h = refl
get_or-low (suc k) w (suc r) h = get_or-low k w r (omega (arith, h))

get_or-past :
    (k : ℕ) (w : Word) (r : ℕ)
    → k ≤ r
    → get_or (replicate k true ++ w) r false ≡ get_or w (r - k) false
get_or-past zero w r h = let e : r - 0 ≡ r = omega arith in rw e refl
get_or-past (suc k) w zero h = absurd (omega (arith, h))
get_or-past (suc k) w (suc r) h =
    let e : suc r - suc k ≡ r - k = omega arith in rw e (get_or-past k w r (omega (arith, h)))

get_or-ones_below : (k r : ℕ) → get_or (ones_below k) r false ≡ ltb r k
get_or-ones_below k r = elim (Bool-cases (ltb r k)) [
  | inl h ↦ rw h (get_or-low k _ r (ground arith))
  | inr h ↦ rw h (get_or-past k _ r (ground arith) ∙ get_or-high (unit_size - k) (r - k))
]

length-ones_below : (k : ℕ) → k ≤ unit_size → length (ones_below k) ≡ unit_size
length-ones_below k h =
    length-append (replicate k true) _
    ∙ ap₂ ◌+◌ (length-replicate k true) (length-replicate (unit_size - k) false)
    ∙ omega (arith, h)

-- A mask of the `n` bits from `lo` on.
pub record IsMask (lo n : ℕ) (w : Word) : Type 0 where
  pub whole : length w ≡ unit_size
  pub bits : (r : ℕ) → r < unit_size → get_or w r false ≡ inside lo n r

pub low_mask-IsMask : (k : ℕ) → IsMask (k % unit_size) (unit_size - k % unit_size) (low_mask k)
unfolding low_mask
low_mask-IsMask k =
    let len = length-ones_below (k % unit_size) (omega arith) in
    record {
      whole = length-word_not (ones_below (k % unit_size)) ∙ len;
      bits = λ r lt.
          get_or-word_not (ones_below (k % unit_size)) r (omega (arith, lt, len))
          ∙ ap not (get_or-ones_below (k % unit_size) r)
          ∙ ground arith;
    }

pub all_ones-IsMask : IsMask 0 unit_size all_ones
all_ones-IsMask = record {
  whole = refl;
  bits = λ r lt. get_or-low unit_size [] r lt ∙ ground arith;
}

ones_below-IsMask : (k : ℕ) → k ≤ unit_size → IsMask 0 k (ones_below k)
ones_below-IsMask k h = record {
  whole = length-ones_below k h;
  bits = λ r lt. get_or-ones_below k r ∙ ground arith;
}

high :
    (k n : ℕ)
    → k < unit_size
    → n ≡ (if k == 0 then unit_size else k)
    → IsMask 0 n (if is_zero (ones_below k) then all_ones else ones_below k)
unfolding is_zero
high zero n h e = rw e all_ones-IsMask
high (suc k) n h e =
    let e' : n ≡ suc k = ground arith in rw e' (ones_below-IsMask (suc k) (omega (arith, h)))

-- The bits below `end_index` in the block of the index before it.
pub high_mask-IsMask :
    (end_index : ℕ)
    → 0 < end_index
    → IsMask 0 (end_index - (end_index - 1) / unit_size * unit_size) (high_mask end_index)
unfolding high_mask
high_mask-IsMask end_index h = high (end_index % unit_size) _ (omega arith) (ground arith)

pub word_and-IsMask :
    (lo n k m : ℕ) (v w : Word)
    → IsMask lo n v
    → IsMask 0 k w
    → m + lo ≡ k
    → k ≤ lo + n
    → IsMask lo m (word_and v w)
word_and-IsMask lo n k m v w hv hw e le = record {
  whole = length-word_and v w (hv.whole ∙ sym hw.whole) ∙ hv.whole;
  bits = λ r lt. get_or-word_and v w r ∙ ap₂ ◌&&◌ (hv.bits r lt) (hw.bits r lt) ∙ ground arith;
}

put_bit_or : (a i : Bool) → (a || i) ≡ (if i then true else a)
put_bit_or a true = or-true a
put_bit_or a false = or-false a

put_bit_and : (a i : Bool) → (a && not i) ≡ (if i then false else a)
put_bit_and a true = and-false a
put_bit_and a false = and-true a

-- A mask writes the bits of its stretch.
pub get_or-put_mask :
    (v : Bool) (w mask : Word) (lo n r : ℕ)
    → IsMask lo n mask
    → length w ≡ unit_size
    → r < unit_size
    → get_or (put_mask v w mask) r false ≡ (if inside lo n r then v else get_or w r false)
unfolding put_mask
get_or-put_mask true w mask lo n r h hw lt =
    get_or-word_or w mask r (hw ∙ sym h.whole)
    ∙ ap (λ i. get_or w r false || i) (h.bits r lt)
    ∙ put_bit_or (get_or w r false) (inside lo n r)
get_or-put_mask false w mask lo n r h hw lt =
    get_or-word_and w (word_not mask) r
    ∙ ap (λ i. get_or w r false && i)
        (get_or-word_not mask r (omega (arith, h.whole, lt)) ∙ ap not (h.bits r lt))
    ∙ put_bit_and (get_or w r false) (inside lo n r)

pub length-put_mask :
    (v : Bool) (w mask : Word)
    → length w ≡ unit_size
    → length mask ≡ unit_size
    → length (put_mask v w mask) ≡ unit_size
unfolding put_mask
length-put_mask true w mask hw hm = length-word_or w mask (hw ∙ sym hm) ∙ hw
length-put_mask false w mask hw hm =
    length-word_and w (word_not mask) (hw ∙ sym hm ∙ sym (length-word_not mask)) ∙ hw
