-- ===== src/Websocket/Bytes.antt =====
-- The bytes of a machine word in memory, and the conversions of endian.h on a little-endian machine.
use jdocs.Base.{
  ℕ, zero, suc, ◌+◌, ◌*◌, ◌/◌, ◌%◌, ◌^◌, ◌<◌, ◌≡◌, refl, sym, ap, ◌∙◌, List, [], ◌∷◌, ◌++◌, arith,
  length, subst, append-nil, append_assoc, set,
}

-- The word with these bytes, the lowest first.
unfoldable pub le_word : List ℕ → ℕ
le_word [] = 0
le_word (b ∷ bs) = b + 256 * le_word bs

-- The `n` bytes of a word.
unfoldable pub le_bytes : (n word : ℕ) → List ℕ
le_bytes zero word = []
le_bytes (suc n) word = word % 256 ∷ le_bytes n (word / 256)

unfoldable pub reversed : List ℕ → List ℕ
reversed [] = []
reversed (b ∷ bs) = reversed bs ++ (b ∷ [])

-- `((uint8_t *)&word)[k] = b` on a 64-bit word.
unfoldable pub store_byte : (word k b : ℕ) → ℕ
unfolding le_word le_bytes
store_byte word k b = le_word (set (le_bytes 8 word) k b)

unfoldable pub be16toh : ℕ → ℕ
unfolding le_word le_bytes reversed
be16toh word = le_word (reversed (le_bytes 2 word))

unfoldable pub be64toh : ℕ → ℕ
unfolding le_word le_bytes reversed
be64toh word = le_word (reversed (le_bytes 8 word))

-- Every item is a byte.
unfoldable pub AreBytes : List ℕ → Type 0
AreBytes [] = Unit
AreBytes (b ∷ bs) = (b < 256) × AreBytes bs

pub le_bytes-le_word : (bs : List ℕ) → AreBytes bs → le_bytes (length bs) (le_word bs) ≡ bs
unfolding le_bytes le_word AreBytes
le_bytes-le_word [] h = refl
le_bytes-le_word (b ∷ bs) (hb, hbs) =
    let low : (b + 256 * le_word bs) % 256 ≡ b = omega (arith, hb) in
    let high : (b + 256 * le_word bs) / 256 ≡ le_word bs = omega (arith, hb) in
    rw (low, high, le_bytes-le_word bs hbs)

pub le_word-le_bytes : (n word : ℕ) → word < 256 ^ n → le_word (le_bytes n word) ≡ word
unfolding le_bytes le_word
le_word-le_bytes zero word h = omega (arith, h)
le_word-le_bytes (suc n) word h =
    let high = le_word-le_bytes n (word / 256) (omega (arith, h)) in omega (arith, high)

pub le_bytes-AreBytes : (n word : ℕ) → AreBytes (le_bytes n word)
unfolding le_bytes AreBytes
le_bytes-AreBytes zero word = tt
le_bytes-AreBytes (suc n) word = (omega arith, le_bytes-AreBytes n (word / 256))

pub length-le_bytes : (n word : ℕ) → length (le_bytes n word) ≡ n
unfolding le_bytes
length-le_bytes zero word = refl
length-le_bytes (suc n) word = ap suc (length-le_bytes n (word / 256))

-- A store into eight bytes changes that byte alone.
pub store_byte-le_word :
    (bs : List ℕ) (k b : ℕ)
    → AreBytes bs
    → length bs ≡ 8
    → store_byte (le_word bs) k b ≡ le_word (set bs k b)
unfolding store_byte
store_byte-le_word bs k b h e =
    let read : le_bytes 8 (le_word bs) ≡ bs =
      subst (λ n. le_bytes n (le_word bs) ≡ bs) e (le_bytes-le_word bs h) in
    ap (λ cs. le_word (set cs k b)) read

low_half :
    (high low upper : ℕ)
    → high < 256
    → low < 256
    → (high + 256 * (low + 256 * upper)) % 2 ^ 16 ≡ high + 256 * (low + 256 * 0)
low_half high low upper hh hl = omega (arith, hh, hl)

-- Two stores into the low half, read as a 16-bit word.
pub be16toh-store_byte :
    (word high low : ℕ)
    → high < 256
    → low < 256
    → be16toh (store_byte (store_byte word 0 high) 1 low % 2 ^ 16) ≡ 256 * high + low
unfolding be16toh store_byte le_word le_bytes reversed AreBytes
be16toh-store_byte word high low hh hl =
    let above = word / 256 in
    let bs : List ℕ = high ∷ le_bytes 7 above in
    let sized : length bs ≡ 8 = ap suc (length-le_bytes 7 above) in
    let two : store_byte (le_word bs) 1 low ≡ le_word (set bs 1 low) =
      store_byte-le_word bs 1 low (hh, le_bytes-AreBytes 7 above) sized in
    let upper = le_word (le_bytes 6 (above / 256)) in
    let half : le_word (set bs 1 low) % 2 ^ 16 ≡ le_word (high ∷ low ∷ []) =
      low_half high low upper hh hl in
    let back : le_bytes 2 (le_word (high ∷ low ∷ [])) ≡ high ∷ low ∷ [] =
      le_bytes-le_word (high ∷ low ∷ []) (hh, (hl, tt)) in
    let swapped : le_word (low ∷ high ∷ []) ≡ 256 * high + low = omega arith in
    ap be16toh (ap (λ w. w % 2 ^ 16) two ∙ half) ∙ ap (λ bs. le_word (reversed bs)) back ∙ swapped

pub reversed-append : (xs ys : List ℕ) → reversed (xs ++ ys) ≡ reversed ys ++ reversed xs
unfolding reversed
reversed-append [] ys = sym (append-nil (reversed ys))
reversed-append (x ∷ xs) ys =
    rw (reversed-append xs ys, append_assoc (reversed ys) (reversed xs) (x ∷ []))

pub reversed-reversed : (xs : List ℕ) → reversed (reversed xs) ≡ xs
unfolding reversed
reversed-reversed [] = refl
reversed-reversed (x ∷ xs) = rw (reversed-append (reversed xs) (x ∷ []), reversed-reversed xs)

pub be64toh-le_word :
    (bs : List ℕ) → AreBytes bs → length bs ≡ 8 → be64toh (le_word bs) ≡ le_word (reversed bs)
unfolding be64toh
be64toh-le_word bs h e =
    let read : le_bytes 8 (le_word bs) ≡ bs =
      subst (λ n. le_bytes n (le_word bs) ≡ bs) e (le_bytes-le_word bs h) in
    ap (λ cs. le_word (reversed cs)) read
