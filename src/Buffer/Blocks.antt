-- ===== src/Buffer/Blocks.antt =====
-- The addresses that the lookups of src/core/buffer.cc return.
use jdocs.Base.{
  ℕ, zero, suc, ◌+◌, ◌*◌, ◌/◌, ◌%◌, ◌<◌, ◌≤◌, ◌≡◌, refl, true, false, List, [], ◌∷◌, inl, inr,
  Bool-cases, none, some, arith, length, get_elem?, get_elem?-lt, ltb, leb,
}
use jdocs.Buffer.Defs.{
  BufferPool, Pointer, buffer_size, buffer_entries_max, buffer_count, get_send_buffer,
  get_recv_buffer, buffer_in,
}
use jdocs.Buffer.Pool.{IsPool}

-- The address of the buffer with this index: its place in its block of the pool.
pub record Located (pool : List ℕ) (index : ℕ) (r : Pointer) : Type 0 where
  pub base : ℕ
  pub block : get_elem? pool (index / buffer_count) ≡ some base
  pub found : r ≡ Pointer.at (base + buffer_size * (index % buffer_count))

pub absent {ℓ} : {A : Type ℓ} (xs : List A) (i : ℕ) → length xs ≤ i → get_elem? xs i ≡ none
absent [] i h = refl
absent (x ∷ xs) zero h = absurd (omega (arith, h))
absent (x ∷ xs) (suc i) h = absent xs i (omega (arith, h))

pub looked_up :
    (pool : List ℕ) (index place base : ℕ)
    → get_elem? pool index ≡ some base
    → buffer_in pool index place ≡ Pointer.at (base + buffer_size * place)
unfolding buffer_in
looked_up pool index place base e = rw (e, buffer_in) refl

in_block :
    (pool : List ℕ) (index : ℕ)
    → index < length pool * buffer_count
    → Located pool index (buffer_in pool (index / buffer_count) (index % buffer_count))
unfolding buffer_in
in_block pool index h =
    let (base, e) = get_elem?-lt pool (index / buffer_count) (omega (arith, h)) in
    record {
      base = base;
      block = e;
      found = looked_up pool (index / buffer_count) (index % buffer_count) base e;
    }

past_end :
    (pool : List ℕ) (index : ℕ)
    → length pool * buffer_count ≤ index
    → buffer_in pool (index / buffer_count) (index % buffer_count) ≡ Pointer.outside
unfolding buffer_in
past_end pool index h = rw (absent pool (index / buffer_count) (omega (arith, h)), buffer_in) refl

-- On a good pool GetSendBuffer finds the buffer of an index that lies in a block of the pool, and returns
-- a null pointer for all others.
pub get_send_buffer-Located :
    (p : BufferPool) (bidx : ℕ)
    → IsPool p
    → (bidx < p.send_buffer_count → Located p.send_pool bidx (get_send_buffer p bidx))
      × (p.send_buffer_count ≤ bidx → get_send_buffer p bidx ≡ Pointer.null)
unfolding get_send_buffer
get_send_buffer-Located p bidx h =
    let split : (index : ℕ) → length p.send_pool ≤ index → leb (length p.send_pool) index ≡ true =
      λ index le. ground arith in
    (
      λ lt.
          let small : leb buffer_entries_max bidx ≡ false = ground (arith, lt, h.most) in
          let in_pool : leb (length p.send_pool) (bidx / buffer_count) ≡ false =
            ground (arith, lt, h.blocks) in
          rw (small, in_pool) (in_block p.send_pool bidx (omega (arith, lt, h.blocks))),
      λ le. elim (Bool-cases (leb buffer_entries_max bidx)) [
        | inl out ↦ rw out refl
        | inr small ↦ rw (small, split (bidx / buffer_count) (omega (arith, le, h.blocks))) refl
      ],
    )

-- GetRecvBuffer finds the buffer of an id that lies in a block of the pool, and returns a null pointer
-- for an id more than one block behind the last; but for an id of the block right behind the last it
-- reads behind the end of the pool.
pub get_recv_buffer-Located :
    (p : BufferPool) (bid : ℕ)
    → let n = length p.recv_pool * buffer_count in
      (bid < n → Located p.recv_pool bid (get_recv_buffer p bid))
      × ((n ≤ bid → bid < n + buffer_count → get_recv_buffer p bid ≡ Pointer.outside)
          × (n + buffer_count ≤ bid → get_recv_buffer p bid ≡ Pointer.null))
unfolding get_recv_buffer
get_recv_buffer-Located p bid = (
  λ lt.
      let in_pool : ltb (length p.recv_pool) (bid / buffer_count) ≡ false = ground (arith, lt) in
      rw in_pool (in_block p.recv_pool bid lt),
  (
    λ le lt.
        let checked : ltb (length p.recv_pool) (bid / buffer_count) ≡ false = ground (arith, lt) in
        rw checked (past_end p.recv_pool bid le),
    λ le.
        let out : ltb (length p.recv_pool) (bid / buffer_count) ≡ true = ground (arith, le) in
        rw out refl,
  ),
)
