-- ===== src/Bitmap/Between.antt =====
-- The number of taken indices in a stretch.
use jdocs.Base.{
  ℕ, zero, suc, ◌+◌, ◌-◌, ◌<◌, ◌≤◌, ◌≡◌, refl, ap, ◌∙◌, Bool, true, false, ◌&&◌, arith, ltb, leb,
  if◌then◌else◌,
}
use jdocs.Bitmap.Count.{count_below, count_below-ext, count_below-none, count_below-uniform}

-- `n` indices from `s` on.
abbrev pub count_from : (ℕ → Bool) → (s n : ℕ) → ℕ
count_from p s n = count_below (λ i. p (s + i)) n

pub count_below-add :
    (p : ℕ → Bool) (s n : ℕ) → count_below p (s + n) ≡ count_below p s + count_from p s n
unfolding count_below
count_below-add p s zero = let e : s + 0 ≡ s = omega arith in ap (count_below p) e ∙ omega arith
count_below-add p s (suc n) =
    let e : s + suc n ≡ suc (s + n) = omega arith in
    ap (count_below p) e ∙ omega (arith, count_below-add p s n)

abbrev pub inside : (lo n : ℕ) → ℕ → Bool
inside lo n i = leb lo i && ltb i (lo + n)

pub count_from-add :
    (p : ℕ → Bool) (s n k : ℕ) → count_from p s (n + k) ≡ count_from p s n + count_from p (s + n) k
count_from-add p s n k =
    count_below-add (λ i. p (s + i)) n k
    ∙ ap (λ c. count_from p s n + c)
        (count_below-ext (λ i. p (s + (n + i))) (λ i. p (s + n + i)) k (λ i lt. ap p (omega arith)))

-- Three stretches: before, in and behind `n` indices from `s` on.
parts :
    (p : ℕ → Bool) (s n m : ℕ)
    → s + n ≤ m
    → count_below p m ≡ count_below p s + count_from p s n + count_from p (s + n) (m - (s + n))
parts p s n m h =
    let e : m ≡ s + n + (m - (s + n)) = omega (arith, h) in
    ap (count_below p) e
    ∙ count_below-add p (s + n) (m - (s + n))
    ∙ ap (λ c. c + count_from p (s + n) (m - (s + n))) (count_below-add p s n)

pub count_from-le : (p : ℕ → Bool) (s n m : ℕ) → s + n ≤ m → count_from p s n ≤ count_below p m
count_from-le p s n m h = let e = parts p s n m h in omega (arith, e)

pub before {ℓ} : {A : Type ℓ} (a b : A) (s n i : ℕ) → i < s → (if inside s n i then a else b) ≡ b
before a b s n i h = ground arith

pub within {ℓ} :
    {A : Type ℓ} (a b : A) (s n i : ℕ) → i < n → (if inside s n (s + i) then a else b) ≡ a
within a b s n i h = ground arith

pub behind {ℓ} : {A : Type ℓ} (a b : A) (s n i : ℕ) → (if inside s n (s + n + i) then a else b) ≡ b
behind a b s n i = ground arith

-- A stretch that is overwritten, in all indices below a bound.
pub count_below-written :
    (p q : ℕ → Bool) (v : Bool) (s n m : ℕ)
    → s + n ≤ m
    → ((i : ℕ) → q i ≡ (if inside s n i then v else p i))
    → count_below q m + count_from p s n ≡ count_below p m + (if v then n else 0)
count_below-written p q v s n m h e =
    let low = count_below-ext q p s (λ i lt. e i ∙ before v (p i) s n i lt) in
    let mid =
      count_below-uniform v (λ i. q (s + i)) n
        (λ i lt. e (s + i) ∙ within v (p (s + i)) s n i lt) in
    let high =
      count_below-ext (λ i. q (s + n + i)) (λ i. p (s + n + i)) (m - (s + n))
        (λ i lt. e (s + n + i) ∙ behind v (p (s + n + i)) s n i) in
    let old = parts p s n m h in
    let new = parts q s n m h in omega (arith, low, mid, high, old, new)

before_and : (s n i : ℕ) (a : Bool) → i < s → (a && inside s n i) ≡ false
before_and s n i true h = ground arith
before_and s n i false h = refl

within_and : (s n i : ℕ) (a : Bool) → i < n → (a && inside s n (s + i)) ≡ a
within_and s n i true h = ground arith
within_and s n i false h = refl

behind_and : (s n i : ℕ) (a : Bool) → (a && inside s n (s + n + i)) ≡ false
behind_and s n i true = ground arith
behind_and s n i false = refl

-- The bits of a stretch alone.
pub count_below-inside :
    (p q : ℕ → Bool) (s n m : ℕ)
    → s + n ≤ m
    → ((i : ℕ) → i < m → q i ≡ (p i && inside s n i))
    → count_below q m ≡ count_from p s n
count_below-inside p q s n m h e =
    let low =
      count_below-none q s (λ i lt. e i (omega (arith, lt, h)) ∙ before_and s n i (p i) lt) in
    let mid =
      count_below-ext (λ i. q (s + i)) (λ i. p (s + i)) n
        (λ i lt. e (s + i) (omega (arith, lt, h)) ∙ within_and s n i (p (s + i)) lt) in
    let high =
      count_below-none (λ i. q (s + n + i)) (m - (s + n))
        (λ i lt. e (s + n + i) (omega (arith, lt, h)) ∙ behind_and s n i (p (s + n + i))) in
    let all = parts q s n m h in omega (arith, low, mid, high, all)
