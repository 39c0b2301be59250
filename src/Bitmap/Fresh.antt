-- ===== src/Bitmap/Fresh.antt =====
-- A bitmap whose indices are all in one state, as the constructor and `Clear` of src/utils/bitmap.cc
-- leave it.
use jdocs.Base.{
  ℕ, zero, suc, ◌+◌, ◌*◌, ◌/◌, ◌%◌, ◌<◌, ◌≡◌, refl, sym, ap, ◌∙◌, Bool, true, false, arith, length,
  length-replicate, get_or, replicate, if◌then◌else◌, u32_mod,
}
use jdocs.Bitmap.Words.{unit_size, Word, all_zeros}
use jdocs.Bitmap.Bits.{bit_at, AreWords}
use jdocs.Bitmap.Count.{count_below-uniform}
use jdocs.Bitmap.Valid.{IsValid, taken}
use jdocs.Bitmap.Defs.{BitMap, new_bit_map, clear}

AreWords-replicate : (n : ℕ) (w : Word) → length w ≡ unit_size → AreWords (replicate n w)
unfolding AreWords
AreWords-replicate zero w h = tt
AreWords-replicate (suc n) w h = (h, AreWords-replicate n w h)

get_or-replicate {ℓ} : {A : Type ℓ} (n i : ℕ) (a d : A) → i < n → get_or (replicate n a) i d ≡ a
get_or-replicate zero i a d h = absurd (omega (arith, h))
get_or-replicate (suc n) zero a d h = refl
get_or-replicate (suc n) (suc i) a d h = get_or-replicate n i a d (omega (arith, h))

bit_at-replicate :
    (n : ℕ) (v : Bool) (j : ℕ)
    → j < n * unit_size
    → bit_at (replicate n (replicate unit_size v)) j ≡ v
unfolding bit_at
bit_at-replicate n v j h =
    ap (λ w. get_or w (j % unit_size) false)
      (get_or-replicate n (j / unit_size) (replicate unit_size v) all_zeros (omega (arith, h)))
    ∙ get_or-replicate unit_size (j % unit_size) v false (omega arith)

uniform :
    (blocks n used : ℕ) (v : Bool)
    → n + 63 < u32_mod
    → blocks ≡ (n + 63) / unit_size
    → used ≡ (if v then n else 0)
    → let b : BitMap = record {
      bitmap = replicate blocks (replicate unit_size v);
      bit_used_count = used;
      bit_count = n;
      blocks = blocks;
    } in
      IsValid b × ((j : ℕ) → j < n → taken b j ≡ v)
uniform blocks n used v h e counts =
    let bits : (j : ℕ) → j < n → bit_at (replicate blocks (replicate unit_size v)) j ≡ v =
      λ j lt. bit_at-replicate blocks v j (omega (arith, lt, e)) in
    (
      record {
        small = h;
        sized = e;
        whole = length-replicate blocks (replicate unit_size v);
        words = AreWords-replicate blocks (replicate unit_size v) (length-replicate unit_size v);
        counted = counts ∙ sym (count_below-uniform v _ n bits);
      },
      bits,
    )

-- A new bitmap of less than 2 ^ 32 - 63 indices is valid, and all of them are free, or all of them
-- taken with `disable_flag`.
pub new_bit_map-IsValid :
    (bit_count : ℕ) (disable_flag : Bool)
    → bit_count + 63 < u32_mod
    → let b = new_bit_map bit_count disable_flag in
      IsValid b × ((j : ℕ) → j < bit_count → taken b j ≡ disable_flag)
unfolding new_bit_map
new_bit_map-IsValid n true h =
    uniform ((n + 63) % u32_mod / unit_size) n n true h (omega (arith, h)) refl
new_bit_map-IsValid n false h =
    uniform ((n + 63) % u32_mod / unit_size) n 0 false h (omega (arith, h)) refl

-- `Clear` leaves a valid bitmap valid, and frees all its indices.
pub clear-IsValid :
    (b : BitMap)
    → IsValid b
    → IsValid (clear b) × ((j : ℕ) → j < b.bit_count → taken (clear b) j ≡ false)
unfolding clear
clear-IsValid b h = uniform b.blocks b.bit_count 0 false h.small h.sized refl
