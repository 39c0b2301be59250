-- ===== src/Bitmap/Words.antt =====
-- A uint64_t of `BitMap` in src/utils/bitmap.h, by its 64 bits, the lowest first.
use jdocs.Base.{
  [], ℕ, zero, suc, ◌+◌, ◌-◌, ◌<◌, ◌≡◌, refl, ap₂, Bool, true, false, not, ◌&&◌, ◌||◌, List, ◌∷◌,
  ◌++◌, arith, length, set, get_or, replicate, if◌then◌else◌,
}

abbrev pub Word : Type 0
Word = List Bool

abbrev pub unit_size : ℕ
unit_size = 64

unfoldable pub word_and : Word → Word → Word
word_and (a ∷ v) (b ∷ w) = (a && b) ∷ word_and v w
word_and [] w = []
word_and (a ∷ v) [] = []

unfoldable pub word_or : Word → Word → Word
word_or (a ∷ v) (b ∷ w) = (a || b) ∷ word_or v w
word_or [] w = []
word_or (a ∷ v) [] = []

unfoldable pub word_not : Word → Word
word_not [] = []
word_not (a ∷ v) = not a ∷ word_not v

-- `1ULL << k`.
abbrev pub one_at : ℕ → Word
one_at k = set (replicate unit_size false) k true

-- `(1ULL << k) - 1`.
abbrev pub ones_below : ℕ → Word
ones_below k = replicate k true ++ replicate (unit_size - k) false

abbrev pub all_ones : Word
all_ones = replicate unit_size true

abbrev pub all_zeros : Word
all_zeros = replicate unit_size false

unfoldable pub is_zero : Word → Bool
is_zero [] = true
is_zero (a ∷ v) = not a && is_zero v

-- The comparison with `~0ULL`.
unfoldable pub is_ones : Word → Bool
is_ones [] = true
is_ones (a ∷ v) = a && is_ones v

-- `__builtin_ctzll`.
unfoldable pub ctz : Word → ℕ
ctz [] = 0
ctz (a ∷ v) = if a then 0 else suc (ctz v)

-- `__builtin_popcountll`.
unfoldable pub popcount : Word → ℕ
popcount [] = 0
popcount (a ∷ v) = (if a then 1 else 0) + popcount v

pub or-true : (a : Bool) → (a || true) ≡ true
or-true true = refl
or-true false = refl

pub or-false : (a : Bool) → (a || false) ≡ a
or-false true = refl
or-false false = refl

pub and-true : (a : Bool) → (a && true) ≡ a
and-true true = refl
and-true false = refl

pub and-false : (a : Bool) → (a && false) ≡ false
and-false true = refl
and-false false = refl

or-zeros : (n : ℕ) (w : Word) → length w ≡ n → word_or w (replicate n false) ≡ w
unfolding word_or
or-zeros n [] h = refl
or-zeros zero (a ∷ w) h = absurd (omega (arith, h))
or-zeros (suc n) (a ∷ w) h = ap₂ ◌∷◌ (or-false a) (or-zeros n w (omega (arith, h)))

pub or-ones : (n : ℕ) (w : Word) → length w ≡ n → word_or w (replicate n true) ≡ replicate n true
unfolding word_or
or-ones zero [] h = refl
or-ones (suc n) [] h = absurd (omega (arith, h))
or-ones zero (a ∷ w) h = absurd (omega (arith, h))
or-ones (suc n) (a ∷ w) h = ap₂ ◌∷◌ (or-true a) (or-ones n w (omega (arith, h)))

pub and-replicate-true : (n : ℕ) (w : Word) → length w ≡ n → word_and w (replicate n true) ≡ w
unfolding word_and
and-replicate-true n [] h = refl
and-replicate-true zero (a ∷ w) h = absurd (omega (arith, h))
and-replicate-true (suc n) (a ∷ w) h =
    ap₂ ◌∷◌ (and-true a) (and-replicate-true n w (omega (arith, h)))

pub and-not-ones :
    (n : ℕ) (w : Word) → length w ≡ n → word_and w (word_not (replicate n true)) ≡ replicate n false
unfolding word_and word_not
and-not-ones zero [] h = refl
and-not-ones (suc n) [] h = absurd (omega (arith, h))
and-not-ones zero (a ∷ w) h = absurd (omega (arith, h))
and-not-ones (suc n) (a ∷ w) h = ap₂ ◌∷◌ (and-false a) (and-not-ones n w (omega (arith, h)))

or-one_at :
    (n : ℕ) (w : Word) (k : ℕ)
    → length w ≡ n
    → word_or w (set (replicate n false) k true) ≡ set w k true
unfolding word_or
or-one_at n [] k h = refl
or-one_at zero (a ∷ w) k h = absurd (omega (arith, h))
or-one_at (suc n) (a ∷ w) zero h = ap₂ ◌∷◌ (or-true a) (or-zeros n w (omega (arith, h)))
or-one_at (suc n) (a ∷ w) (suc k) h = ap₂ ◌∷◌ (or-false a) (or-one_at n w k (omega (arith, h)))

and-ones : (n : ℕ) (w : Word) → length w ≡ n → word_and w (word_not (replicate n false)) ≡ w
unfolding word_and word_not
and-ones n [] h = refl
and-ones zero (a ∷ w) h = absurd (omega (arith, h))
and-ones (suc n) (a ∷ w) h = ap₂ ◌∷◌ (and-true a) (and-ones n w (omega (arith, h)))

and-not-one_at :
    (n : ℕ) (w : Word) (k : ℕ)
    → length w ≡ n
    → word_and w (word_not (set (replicate n false) k true)) ≡ set w k false
unfolding word_and word_not
and-not-one_at n [] k h = refl
and-not-one_at zero (a ∷ w) k h = absurd (omega (arith, h))
and-not-one_at (suc n) (a ∷ w) zero h = ap₂ ◌∷◌ (and-false a) (and-ones n w (omega (arith, h)))
and-not-one_at (suc n) (a ∷ w) (suc k) h =
    ap₂ ◌∷◌ (and-true a) (and-not-one_at n w k (omega (arith, h)))

is_zero-and_zeros : (n : ℕ) (w : Word) → is_zero (word_and w (replicate n false)) ≡ true
unfolding word_and is_zero
is_zero-and_zeros n [] = refl
is_zero-and_zeros zero (a ∷ w) = refl
is_zero-and_zeros (suc n) (a ∷ w) = rw (and-false a) (is_zero-and_zeros n w)

is_zero-one_at :
    (n : ℕ) (w : Word) (k : ℕ)
    → length w ≡ n
    → k < n
    → is_zero (word_and w (set (replicate n false) k true)) ≡ not (get_or w k false)
unfolding word_and is_zero
is_zero-one_at zero w k h lt = absurd (omega (arith, lt))
is_zero-one_at (suc n) [] k h lt = absurd (omega (arith, h))
is_zero-one_at (suc n) (true ∷ w) zero h lt = refl
is_zero-one_at (suc n) (false ∷ w) zero h lt = is_zero-and_zeros n w
is_zero-one_at (suc n) (a ∷ w) (suc k) h lt =
    rw (and-false a) (is_zero-one_at n w k (omega (arith, h)) (omega (arith, lt)))

-- Setting, clearing and testing one bit.
pub word_or-one_at : (w : Word) (k : ℕ) → length w ≡ unit_size → word_or w (one_at k) ≡ set w k true
word_or-one_at w k h = or-one_at unit_size w k h

pub word_and-not_one_at :
    (w : Word) (k : ℕ) → length w ≡ unit_size → word_and w (word_not (one_at k)) ≡ set w k false
word_and-not_one_at w k h = and-not-one_at unit_size w k h

pub is_zero-word_and :
    (w : Word) (k : ℕ)
    → length w ≡ unit_size
    → k < unit_size
    → is_zero (word_and w (one_at k)) ≡ not (get_or w k false)
is_zero-word_and w k h lt = is_zero-one_at unit_size w k h lt

first_suc :
    (w : Word) (k : ℕ)
    → ((j : ℕ) → j < k → get_or w j false ≡ true)
    → (j : ℕ) → j < suc k
    → get_or (true ∷ w) j false ≡ true
first_suc w k first zero lt = refl
first_suc w k first (suc j) lt = first j (omega (arith, lt))

-- The lowest clear bit of a word that is not all ones.
pub ctz-first :
    (w : Word)
    → is_ones w ≡ false
    → let k = ctz (word_not w) in
      (k < length w) × (get_or w k false ≡ false) × ((j : ℕ) → j < k → get_or w j false ≡ true)
unfolding ctz word_not is_ones
ctz-first [] h = cc
ctz-first (false ∷ w) h = (omega arith, refl, λ j lt. absurd (omega (arith, lt)))
ctz-first (true ∷ w) h =
    let (short, clear, first) = ctz-first w h in
    (omega (arith, short), clear, first_suc w (ctz (word_not w)) first)

pub is_ones-bit : (w : Word) (j : ℕ) → is_ones w ≡ true → j < length w → get_or w j false ≡ true
unfolding is_ones
is_ones-bit [] j h lt = absurd (omega (arith, lt))
is_ones-bit (false ∷ w) j h lt = cc
is_ones-bit (true ∷ w) zero h lt = refl
is_ones-bit (true ∷ w) (suc j) h lt = is_ones-bit w j h (omega (arith, lt))
