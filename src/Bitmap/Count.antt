-- ===== src/Bitmap/Count.antt =====
-- The number of indices below a bound that are taken.
use jdocs.Base.{
  ℕ, zero, suc, ◌+◌, ◌<◌, ◌≤◌, ◌≡◌, refl, sym, ap, ap₂, ◌∙◌, Bool, true, false, Bool-cases, inl,
  inr, arith, ◌==◌, ==_iff, if◌then◌else◌,
}

abbrev pub weight : Bool → ℕ
weight b = if b then 1 else 0

unfoldable pub count_below : (ℕ → Bool) → ℕ → ℕ
count_below p zero = 0
count_below p (suc n) = count_below p n + weight (p n)

pub count_below-le : (p : ℕ → Bool) (n : ℕ) → count_below p n ≤ n
unfolding count_below
count_below-le p zero = omega arith
count_below-le p (suc n) = ground (arith, count_below-le p n)

pub count_below-ext :
    (p q : ℕ → Bool) (n : ℕ) → ((i : ℕ) → i < n → p i ≡ q i) → count_below p n ≡ count_below q n
unfolding count_below
count_below-ext p q zero h = refl
count_below-ext p q (suc n) h =
    ap₂ (λ a b. a + weight b) (count_below-ext p q n (λ i lt. h i (omega (arith, lt))))
      (h n (omega arith))

apart {ℓ} : {A : Type ℓ} (a b : A) (j i : ℕ) → i < j → (if j == i then b else a) ≡ a
apart a b j i h = ground arith

-- One index below the bound changes.
pub count_below-set :
    (p q : ℕ → Bool) (n j : ℕ) (v : Bool)
    → ((i : ℕ) → q i ≡ (if j == i then v else p i))
    → j < n
    → count_below q n + weight (p j) ≡ count_below p n + weight v
unfolding count_below
count_below-set p q zero j v h lt = absurd (omega (arith, lt))
count_below-set p q (suc n) j v h lt = elim (Bool-cases (j == n)) [
  | inl here ↦
      let e : j ≡ n = (==_iff j n).0 here in
      let low : count_below q n ≡ count_below p n =
        count_below-ext q p n (λ i below. h i ∙ apart (p i) v j i (omega (arith, e, below))) in
      let last : q n ≡ v = h n ∙ rw here in
      let moved : p j ≡ p n = ap p e in rw (low, last, moved) (omega arith)
  | inr before ↦
      let last : q n ≡ p n = h n ∙ rw before in
      let rest = count_below-set p q n j v h (ground arith) in rw last (omega (arith, rest))
]

pub count_below-all : (p : ℕ → Bool) (n : ℕ) → ((i : ℕ) → i < n → p i ≡ true) → count_below p n ≡ n
unfolding count_below
count_below-all p zero h = refl
count_below-all p (suc n) h =
    let last = h n (omega arith) in
    let rest = count_below-all p n (λ i lt. h i (omega (arith, lt))) in
    rw last (omega (arith, rest))

pub count_below-full : (p : ℕ → Bool) (n i : ℕ) → count_below p n ≡ n → i < n → p i ≡ true
unfolding count_below
count_below-full p zero i h lt = absurd (omega (arith, lt))
count_below-full p (suc n) i h lt =
    let below = count_below-le p n in
    elim (Bool-cases (i == n)) [
      | inl last ↦ let e : i ≡ n = (==_iff i n).0 last in rw (ap p e) (ground (arith, below))
      | inr before ↦ count_below-full p n i (ground (arith, below)) (ground arith)
    ]

pub count_below-pos : (p : ℕ → Bool) (n i : ℕ) → p i ≡ true → i < n → 0 < count_below p n
unfolding count_below
count_below-pos p zero i h lt = absurd (omega (arith, lt))
count_below-pos p (suc n) i h lt = elim (Bool-cases (i == n)) [
  | inl last ↦ rw (sym (ap p ((==_iff i n).0 last)) ∙ h) (omega arith)
  | inr before ↦ let below = count_below-pos p n i h (ground arith) in omega (arith, below)
]

pub count_below-none :
    (p : ℕ → Bool) (n : ℕ) → ((i : ℕ) → i < n → p i ≡ false) → count_below p n ≡ 0
unfolding count_below
count_below-none p zero h = refl
count_below-none p (suc n) h =
    let rest = count_below-none p n (λ i lt. h i (omega (arith, lt))) in
    rw (h n (omega arith)) (omega (arith, rest))

pub count_below-uniform :
    (v : Bool) (p : ℕ → Bool) (n : ℕ)
    → ((i : ℕ) → i < n → p i ≡ v)
    → count_below p n ≡ (if v then n else 0)
count_below-uniform true p n h = count_below-all p n h
count_below-uniform false p n h = count_below-none p n h
