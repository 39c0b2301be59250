-- ===== src/Buffer/Offers.antt =====
-- The buffers that the loop of alloc_recv_buffers in src/core/buffer.cc offers to the kernel.
use jdocs.Base.{
  append-nil, append_assoc, ◌^◌, ℕ, zero, suc, ◌+◌, ◌*◌, ◌/◌, ◌%◌, ◌<◌, ◌≤◌, ◌≡◌, refl, sym, ap,
  ◌∙◌, List, [], ◌∷◌, ◌++◌, some, arith, length, get_elem?, get_elem?-append_length,
}
use jdocs.Buffer.Defs.{
  BufferPool, Pointer, Offer, buffer_size, buffer_entries_max, buffer_count, offer_block,
}
use jdocs.Buffer.Blocks.{Located}

unfoldable pub AreLocated : (pool : List ℕ) → List Offer → Type 0
AreLocated pool [] = Unit
AreLocated pool (o ∷ os) = Located pool o.bid (Pointer.at o.address) × AreLocated pool os

-- Each offer to the kernel has the address that its id stands for.
pub record IsReceiving (p : BufferPool) : Type 0 where
  pub blocks : p.recv_buffer_count ≡ length p.recv_pool * buffer_count
  pub most : p.recv_buffer_count ≤ buffer_entries_max
  pub offers : AreLocated p.recv_pool p.buf_ring

get_elem?-append {ℓ} :
    {A : Type ℓ} (xs ys : List A) (i : ℕ) (a : A)
    → get_elem? xs i ≡ some a
    → get_elem? (xs ++ ys) i ≡ some a
get_elem?-append [] ys i a h = cc
get_elem?-append (x ∷ xs) ys zero a h = h
get_elem?-append (x ∷ xs) ys (suc i) a h = get_elem?-append xs ys i a h

pub AreLocated-grow :
    (pool more : List ℕ) (os : List Offer) → AreLocated pool os → AreLocated (pool ++ more) os
unfolding AreLocated
AreLocated-grow pool more [] h = tt
AreLocated-grow pool more (o ∷ os) (l, h) = (
  record {
    base = l.base;
    block = get_elem?-append pool more (o.bid / buffer_count) l.base l.block;
    found = l.found;
  },
  AreLocated-grow pool more os h,
)

pub AreLocated-snoc :
    (pool : List ℕ) (os : List Offer) (o : Offer)
    → AreLocated pool os
    → Located pool o.bid (Pointer.at o.address)
    → AreLocated pool (os ++ (o ∷ []))
unfolding AreLocated
AreLocated-snoc pool [] o h l = (l, tt)
AreLocated-snoc pool (x ∷ os) o (lx, h) l = (lx, AreLocated-snoc pool os o h l)

-- The offers of the buffers from number `i` on of a block at the address `base`, whose first buffer has
-- the id `first`.
unfoldable pub block_offers : (first base i rounds : ℕ) → List Offer
block_offers first base i zero = []
block_offers first base i (suc rounds) =
    record { bid = first + i; address = base + buffer_size * i }
    ∷ block_offers first base (i + 1) rounds

pub offer_block-ring :
    (q : BufferPool) (first base i rounds : ℕ)
    → q.recv_buffer_count ≡ first + i
    → first + i + rounds < 2 ^ 16
    → (offer_block q (base + buffer_size * i) rounds).buf_ring
      ≡ q.buf_ring ++ block_offers first base i rounds
unfolding offer_block block_offers
offer_block-ring q first base i zero count small = sym (append-nil q.buf_ring)
offer_block-ring q first base i (suc rounds) count small =
    let offer : Offer = record { bid = q.recv_buffer_count; address = base + buffer_size * i } in
    let named : Offer = record { bid = first + i; address = base + buffer_size * i } in
    let q' : BufferPool = record q {
      buf_ring = q.buf_ring ++ (offer ∷ []);
      recv_buffer_count = (q.recv_buffer_count + 1) % 65536;
    } in
    let address : base + buffer_size * i + buffer_size ≡ base + buffer_size * (i + 1) =
      omega arith in
    let same : offer ≡ named =
      ap (λ n. record { bid = n; address = base + buffer_size * i }) count in
    ap (λ a. (offer_block q' a rounds).buf_ring) address
    ∙ offer_block-ring q' first base (i + 1) rounds (omega (arith, count, small))
        (omega (arith, small))
    ∙ append_assoc q.buf_ring (offer ∷ []) (block_offers first base (i + 1) rounds)
    ∙ ap (λ o. q.buf_ring ++ (o ∷ block_offers first base (i + 1) rounds)) same

-- A pool `r` that comes from `q` by offers of the block `base` behind the blocks of `pool`.
pub record Offered (pool : List ℕ) (base : ℕ) (q r : BufferPool) : Type 0 where
  pub pool_kept : r.recv_pool ≡ pool ++ (base ∷ [])
  pub count : r.recv_buffer_count ≡ length pool * buffer_count + buffer_count
  pub offers : AreLocated (pool ++ (base ∷ [])) r.buf_ring
  pub same_count : r.send_buffer_count ≡ q.send_buffer_count
  pub same_pool : r.send_pool ≡ q.send_pool
  pub same_available : r.available ≡ q.available

pub offer_block-Offered :
    (pool : List ℕ) (base : ℕ) (q : BufferPool) (buffer_addr i rounds : ℕ)
    → length pool * buffer_count + buffer_count ≤ buffer_entries_max
    → q.recv_pool ≡ pool ++ (base ∷ [])
    → q.recv_buffer_count ≡ length pool * buffer_count + i
    → buffer_addr ≡ base + buffer_size * i
    → i + rounds ≡ buffer_count
    → AreLocated (pool ++ (base ∷ [])) q.buf_ring
    → Offered pool base q (offer_block q buffer_addr rounds)
unfolding offer_block
offer_block-Offered pool base q buffer_addr i zero small kept count place whole h = record {
  pool_kept = kept;
  count = omega (arith, count, whole);
  offers = h;
  same_count = refl;
  same_pool = refl;
  same_available = refl;
}
offer_block-Offered pool base q buffer_addr i (suc rounds) small kept count place whole h =
    let offer : Offer = record { bid = q.recv_buffer_count; address = buffer_addr } in
    let index : q.recv_buffer_count / buffer_count ≡ length pool = omega (arith, count, whole) in
    let slot : q.recv_buffer_count % buffer_count ≡ i = omega (arith, count, whole) in
    let located : Located (pool ++ (base ∷ [])) offer.bid (Pointer.at buffer_addr) = record {
      base = base;
      block = ap (get_elem? (pool ++ (base ∷ []))) index ∙ get_elem?-append_length pool base;
      found = ap Pointer.at (place ∙ ap (λ k. base + buffer_size * k) (sym slot));
    } in
    let q' : BufferPool = record q {
      buf_ring = q.buf_ring ++ (offer ∷ []);
      recv_buffer_count = (q.recv_buffer_count + 1) % 65536;
    } in
    let rest =
      offer_block-Offered pool base q' (buffer_addr + buffer_size) (i + 1) rounds small kept
        (omega (arith, count, whole, small)) (omega (arith, place)) (omega (arith, whole))
        (AreLocated-snoc (pool ++ (base ∷ [])) q.buf_ring offer h located) in
    record {
      pool_kept = rest.pool_kept;
      count = rest.count;
      offers = rest.offers;
      same_count = rest.same_count;
      same_pool = rest.same_pool;
      same_available = rest.same_available;
    }
