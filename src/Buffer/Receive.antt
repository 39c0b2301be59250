-- ===== src/Buffer/Receive.antt =====
-- The buffers that src/core/buffer.cc offers to the kernel for receiving, and the new pools.
use mathlib.Core.Option.{some-injective}
use jdocs.Base.{
  ℕ, zero, suc, ◌+◌, ◌*◌, ◌/◌, ◌%◌, ◌<◌, ◌≡◌, refl, sym, ap, ◌∙◌, subst, false, List, [], ◌∷◌, ◌++◌,
  inl, inr, Bool-cases, Option, none, some, arith, length, length-append, get_elem?, ◌==◌,
  if◌then◌else◌,
}
use jdocs.Buffer.Defs.{
  BufferPool, Pointer, Offer, buffer_size, buffer_entries_max, buffer_count, offer_block,
  alloc_recv_buffers, get_recv_buffer, replenish_recv_buffer,
}
use jdocs.Buffer.Blocks.{Located, get_recv_buffer-Located}
use jdocs.Buffer.Offers.{
  AreLocated, IsReceiving, AreLocated-grow, AreLocated-snoc, block_offers, offer_block-ring,
  offer_block-Offered,
}

-- What alloc_recv_buffers leaves: the send buffers as they were, and if there was room and memory for it,
-- one block more for receiving, whose buffers are offered behind the old offers.
pub record Extended (p : BufferPool) (memory : Option ℕ) (q : BufferPool) : Type 0 where
  pub receiving : IsReceiving q
  pub pool : q.recv_pool ≡ (
      if p.recv_buffer_count == buffer_entries_max
      then p.recv_pool
      else elim memory [ none ↦ p.recv_pool | some base ↦ p.recv_pool ++ (base ∷ []) ])
  pub ring : q.buf_ring ≡ (
      if p.recv_buffer_count == buffer_entries_max then p.buf_ring else elim memory [
        | none ↦ p.buf_ring
        | some base ↦ p.buf_ring ++ block_offers p.recv_buffer_count base 0 buffer_count
      ])
  pub same_count : q.send_buffer_count ≡ p.send_buffer_count
  pub same_pool : q.send_pool ≡ p.send_pool
  pub same_available : q.available ≡ p.available

extend :
    (p : BufferPool) (memory : Option ℕ)
    → IsReceiving p
    → (p.recv_buffer_count == buffer_entries_max) ≡ false
    → Extended p memory (elim memory [
      | none ↦ p
      | some base ↦
          offer_block (record p { recv_pool = p.recv_pool ++ (base ∷ []) }) base buffer_count
    ])
extend p none h room = record {
  receiving = h;
  pool = rw room refl;
  ring = rw room refl;
  same_count = refl;
  same_pool = refl;
  same_available = refl;
}
extend p (some base) h room =
    let p' : BufferPool = record p { recv_pool = p.recv_pool ++ (base ∷ []) } in
    let o =
      offer_block-Offered p.recv_pool base p' base 0 buffer_count (ground (arith, h.blocks, h.most))
        refl (omega (arith, h.blocks)) (omega arith) refl
        (AreLocated-grow p.recv_pool (base ∷ []) p.buf_ring h.offers) in
    let r = offer_block p' base buffer_count in
    let at_first : base ≡ base + buffer_size * 0 = omega arith in
    let size : length r.recv_pool ≡ length p.recv_pool + 1 =
      ap length o.pool_kept ∙ length-append p.recv_pool (base ∷ []) in
    record {
      receiving = record {
        blocks = omega (arith, o.count, size);
        most = ground (arith, o.count, h.blocks, h.most);
        offers = subst (λ pool. AreLocated pool r.buf_ring) (sym o.pool_kept) o.offers;
      };
      pool = rw room o.pool_kept;
      ring = rw room (
          ap (λ a. (offer_block p' a buffer_count).buf_ring) at_first
          ∙ offer_block-ring p' p.recv_buffer_count base 0 buffer_count (omega arith)
              (ground (arith, h.blocks, h.most)));
      same_count = o.same_count;
      same_pool = o.same_pool;
      same_available = o.same_available;
    }

-- When each offer to the kernel has the address that its id stands for, alloc_recv_buffers keeps this so
-- and leaves the send buffers alone. Unless the pool has its full size or there is no memory, it adds the
-- block that it gets and offers its 256 buffers in their order behind the old offers, with the next ids and
-- their own addresses; otherwise blocks and offers are as before.
pub alloc_recv_buffers-Extended :
    (p : BufferPool) (memory : Option ℕ)
    → IsReceiving p
    → Extended p memory (alloc_recv_buffers p memory)
unfolding alloc_recv_buffers
alloc_recv_buffers-Extended p memory h =
    elim (Bool-cases (p.recv_buffer_count == buffer_entries_max)) [
      | inl full ↦ rw full (record {
        receiving = h;
        pool = rw full refl;
        ring = rw full refl;
        same_count = refl;
        same_pool = refl;
        same_available = refl;
      })
      | inr room ↦ rw room (extend p memory h room)
    ]

AreLocated-append :
    (pool : List ℕ) (xs ys : List Offer)
    → AreLocated pool (xs ++ ys)
    → AreLocated pool xs × AreLocated pool ys
unfolding AreLocated
AreLocated-append pool [] ys h = (tt, h)
AreLocated-append pool (x ∷ xs) ys (l, h) =
    let (left, right) = AreLocated-append pool xs ys h in ((l, left), right)

AreLocated-both :
    (pool : List ℕ) (xs ys : List Offer)
    → AreLocated pool xs
    → AreLocated pool ys
    → AreLocated pool (xs ++ ys)
unfolding AreLocated
AreLocated-both pool [] ys h k = k
AreLocated-both pool (x ∷ xs) ys (l, h) k = (l, AreLocated-both pool xs ys h k)

get_elem?-lt {ℓ} :
    {A : Type ℓ} (xs : List A) (i : ℕ) (a : A) → get_elem? xs i ≡ some a → i < length xs
get_elem?-lt [] i a h = cc
get_elem?-lt (x ∷ xs) zero a h = omega arith
get_elem?-lt (x ∷ xs) (suc i) a h = omega (arith, get_elem?-lt xs i a h)

-- The address of a buffer is found again by its id.
get_recv_buffer-offer :
    (p : BufferPool) (o : Offer)
    → Located p.recv_pool o.bid (Pointer.at o.address)
    → get_recv_buffer p o.bid ≡ Pointer.at o.address
get_recv_buffer-offer p o l =
    let low = get_elem?-lt p.recv_pool (o.bid / buffer_count) l.base l.block in
    let g = (get_recv_buffer-Located p o.bid).0 (omega (arith, low)) in
    let same : g.base ≡ l.base = some-injective _ _ (sym g.block ∙ l.block) in
    g.found ∙ ap (λ b. Pointer.at (b + buffer_size * (o.bid % buffer_count))) same ∙ sym l.found

-- The kernel takes an offer out of the ring, wherever it stands, for data that it has received. Then
-- GetRecvBuffer finds the address of the buffer by its id, and ReplenishRecvBuffer with this address and id
-- puts the same offer behind the others, none of which changes. All offers have their own addresses again.
pub replenish_recv_buffer-returns :
    (p : BufferPool) (before : List Offer) (o : Offer) (behind : List Offer)
    → IsReceiving p
    → p.buf_ring ≡ before ++ (o ∷ behind)
    → let taken : BufferPool = record p { buf_ring = before ++ behind } in
      let back = replenish_recv_buffer taken o.address o.bid in
      (get_recv_buffer taken o.bid ≡ Pointer.at o.address)
      × (back.buf_ring ≡ (before ++ behind) ++ (o ∷ []))
      × (back.recv_pool ≡ p.recv_pool)
      × IsReceiving back
unfolding replenish_recv_buffer AreLocated
replenish_recv_buffer-returns p before o behind h e =
    let taken : BufferPool = record p { buf_ring = before ++ behind } in
    let (left, (l, right)) =
      AreLocated-append p.recv_pool before (o ∷ behind)
        (subst (AreLocated p.recv_pool) e h.offers) in
    (
      get_recv_buffer-offer taken o l,
      refl,
      refl,
      record {
        blocks = h.blocks;
        most = h.most;
        offers =
            AreLocated-snoc p.recv_pool (before ++ behind) o
              (AreLocated-both p.recv_pool before behind left right) l;
      },
    )
