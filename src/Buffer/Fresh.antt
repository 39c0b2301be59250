-- ===== src/Buffer/Fresh.antt =====
-- The constructor of `BufferPool` in src/core/buffer.cc, and a buffer's way through the send pool.
use jdocs.Base.{
  ℕ, ◌*◌, ◌<◌, ◌≡◌, refl, sym, ap, ◌∙◌, subst, Bool, true, false, [], inl, inr, Bool-cases, Option,
  none, some, arith, length, ◌==◌, ==_iff, if◌then◌else◌,
}
use jdocs.Bitmap.Defs.{new_bit_map, no_index}
use jdocs.Bitmap.Valid.{IsValid, taken}
use jdocs.Bitmap.Bits.{bit_at}
use jdocs.Bitmap.Fresh.{new_bit_map-IsValid}
use jdocs.Buffer.Defs.{
  BufferPool, buffer_entries_max, buffer_count, alloc_recv_buffers, alloc_send_buffers,
  new_buffer_pool, was_accepted, add_send_block, get_send_buffer_index, replenish_send_buffer,
}
use jdocs.Buffer.Pool.{IsPool, Grown, alloc_send_buffers-Grown}
use jdocs.Buffer.Send.{Obtained, get_send_buffer_index-Obtained, replenish_send_buffer-frees}
use jdocs.Buffer.Offers.{IsReceiving, AreLocated}
use jdocs.Buffer.Receive.{Extended, alloc_recv_buffers-Extended}

abbrev no_blocks : BufferPool
no_blocks = record {
  recv_buffer_count = 0;
  send_buffer_count = 0;
  buf_ring = [];
  fixed = [];
  recv_pool = [];
  send_pool = [];
  available = new_bit_map buffer_entries_max true;
}

no_blocks-IsPool : IsPool no_blocks
unfolding new_bit_map
no_blocks-IsPool =
    let (valid, all) = new_bit_map-IsValid buffer_entries_max true (omega arith) in
    record {
      valid = valid;
      size = refl;
      blocks = refl;
      most = omega arith;
      locked = λ j _ lt. all j lt;
    }

no_blocks-IsReceiving : IsReceiving no_blocks
unfolding AreLocated
no_blocks-IsReceiving = record { blocks = refl; most = omega arith; offers = tt }

Extended-IsPool : (p q : BufferPool) (memory : Option ℕ) → IsPool p → Extended p memory q → IsPool q
Extended-IsPool p q memory h e = record {
  valid = subst IsValid (sym e.same_available) h.valid;
  size = ap (λ b. b.bit_count) e.same_available ∙ h.size;
  blocks = e.same_count ∙ h.blocks ∙ ap (λ s. length s * buffer_count) (sym e.same_pool);
  most = omega (arith, e.same_count, h.most);
  locked = λ j high lt.
      ap (λ b. bit_at b.bitmap j) e.same_available
      ∙ h.locked j (omega (arith, high, e.same_count)) lt;
}

Grown-IsPool :
    (p q : BufferPool) (memory accepted : Option ℕ)
    → IsPool p
    → Grown p memory accepted q
    → IsPool q
Grown-IsPool p q memory accepted h (Grown.same e _) = subst IsPool (sym e) h
Grown-IsPool p q memory accepted h (Grown.grown hq _ _) = hq

branch :
    (P : BufferPool → Type 0) (b : Bool) (p q : BufferPool) → P p → P q → P (if b then p else q)
branch P true p q hp hq = hp
branch P false p q hp hq = hq

alloc_send_buffers-IsReceiving :
    (p : BufferPool) (memory accepted : Option ℕ)
    → IsReceiving p
    → IsReceiving (alloc_send_buffers p memory accepted)
unfolding alloc_send_buffers add_send_block
alloc_send_buffers-IsReceiving p none accepted h = branch IsReceiving _ p p h h
alloc_send_buffers-IsReceiving p (some base) accepted h = branch IsReceiving _ p _ h (
    branch IsReceiving (was_accepted accepted) (add_send_block p base) p
      (record { blocks = h.blocks; most = h.most; offers = h.offers }) h)

-- Whatever memory the constructor gets for its first blocks, it leaves a pool in which no index outside
-- the blocks is free, and each offer to the kernel has the address that its id stands for.
pub new_buffer_pool-IsPool :
    (recv_memory send_memory accepted : Option ℕ)
    → let p = new_buffer_pool recv_memory send_memory accepted in IsPool p × IsReceiving p
unfolding new_buffer_pool
new_buffer_pool-IsPool recv_memory send_memory accepted =
    let e = alloc_recv_buffers-Extended no_blocks recv_memory no_blocks-IsReceiving in
    let p = alloc_recv_buffers no_blocks recv_memory in
    let h = Extended-IsPool no_blocks p recv_memory no_blocks-IsPool e in
    (
      Grown-IsPool p _ send_memory accepted h (alloc_send_buffers-Grown p send_memory accepted h),
      alloc_send_buffers-IsReceiving p send_memory accepted e.receiving,
    )

freed_again :
    (i j : ℕ) (was is : Bool)
    → ((i == j) ≡ true → was ≡ false)
    → is ≡ (if i == j then true else was)
    → (if i == j then false else is) ≡ was
freed_again i j was is h e = elim (Bool-cases (i == j)) [
  | inl here ↦ rw here (sym (h here))
  | inr there ↦ rw there (e ∙ rw there refl)
]

back :
    (p : BufferPool) (memory accepted : Option ℕ) (r : ℕ × BufferPool)
    → Obtained p memory accepted r
    → r.0 < buffer_entries_max
    → (j : ℕ) → j < p.send_buffer_count
    → taken (replenish_send_buffer r.1 r.0).available j ≡ taken p.available j
back p memory accepted r (Obtained.exhausted e _ _) low j lt =
    let none_left : r.0 ≡ no_index = ap (λ s. s.0) e in absurd (omega (arith, none_left, low))
back p memory accepted r (Obtained.obtained below free hq bits here) low j lt =
    (replenish_send_buffer-frees r.1 r.0 hq below).1 j
    ∙ freed_again r.0 j (taken p.available j) (taken r.1.available j)
        (λ same.
          let e : r.0 ≡ j = (==_iff r.0 j).0 same in
          ap (taken p.available) (sym e) ∙ free (omega (arith, e, lt)))
        (bits j lt)

-- On a good pool an index that GetSendBufferIndex has returned and that goes back by ReplenishSendBuffer
-- leaves all indices of the old blocks as they were.
pub replenish-get :
    (p : BufferPool) (memory accepted : Option ℕ)
    → IsPool p
    → let r = get_send_buffer_index p memory accepted in
      r.0 < buffer_entries_max
      → (j : ℕ) → j < p.send_buffer_count
      → taken (replenish_send_buffer r.1 r.0).available j ≡ taken p.available j
replenish-get p memory accepted h low j lt =
    back p memory accepted (get_send_buffer_index p memory accepted)
      (get_send_buffer_index-Obtained p memory accepted h) low j lt
