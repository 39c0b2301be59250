-- ===== src/Tests/Buffers.antt =====
-- The buffer pool of src/core/buffer.cc.
use jdocs.Base.{
  List, [], ◌∷◌, ◌++◌, ℕ, ◌+◌, ◌<◌, ◌≤◌, ◌≡◌, refl, arith, some, none, length, ◌*◌, false,
  if◌then◌else◌, ◌==◌,
}
use jdocs.Bitmap.Words.{word_and, word_or, word_not, is_zero, is_ones, ctz, popcount}
use jdocs.Bitmap.Defs.{new_bit_map, get_and_set_index, find_free, is_full}
use jdocs.Bitmap.Ranges.{
  remove_index_range, out_of_range, write_range, put_block, fill_blocks, fill_block, low_mask,
  high_mask, less_used, put_mask,
}
use jdocs.Bitmap.Valid.{taken}
use jdocs.Buffer.Defs.{
  BufferPool, Pointer, Offer, buffer_count, new_buffer_pool, alloc_recv_buffers, alloc_send_buffers,
  add_send_block, was_accepted, offer_block, get_send_buffer_index, grow_and_retry, get_send_buffer,
  get_recv_buffer, buffer_in, replenish_send_buffer, replenish_recv_buffer,
}
use jdocs.Buffer.Pool.{IsPool}
use jdocs.Buffer.Send.{Obtained, get_send_buffer_index-Obtained, replenish_send_buffer-frees}
use jdocs.Buffer.Blocks.{Located, get_send_buffer-Located, get_recv_buffer-Located}
use jdocs.Buffer.Offers.{IsReceiving, block_offers}
use jdocs.Buffer.Receive.{Extended, alloc_recv_buffers-Extended, replenish_recv_buffer-returns}
use jdocs.Buffer.Fresh.{new_buffer_pool-IsPool, replenish-get}

pool : BufferPool
pool = new_buffer_pool (some 4096) (some 1048576) (some 256)

pool-IsPool : IsPool pool
unfolding pool
pool-IsPool = (new_buffer_pool-IsPool (some 4096) (some 1048576) (some 256)).0

pool-IsReceiving : IsReceiving pool
unfolding pool
pool-IsReceiving = (new_buffer_pool-IsPool (some 4096) (some 1048576) (some 256)).1

first_index : (get_send_buffer_index pool none none).0 ≡ 0
unfolding pool new_buffer_pool alloc_send_buffers alloc_recv_buffers add_send_block was_accepted
    offer_block get_send_buffer_index grow_and_retry new_bit_map get_and_set_index find_free is_full
    remove_index_range out_of_range write_range put_block fill_blocks fill_block low_mask high_mask
    less_used put_mask word_and word_or word_not is_zero is_ones ctz popcount
first_index = refl

send_address : get_send_buffer pool 3 ≡ Pointer.at 1054720
unfolding pool new_buffer_pool alloc_send_buffers alloc_recv_buffers add_send_block was_accepted
    offer_block get_send_buffer buffer_in
send_address = refl

recv_address : get_recv_buffer pool 2 ≡ Pointer.at 8192
unfolding pool new_buffer_pool alloc_send_buffers alloc_recv_buffers add_send_block was_accepted
    offer_block get_recv_buffer buffer_in
recv_address = refl

get_send_buffer_index-Obtained_example :
    Obtained pool (some 2097152) (some 256) (get_send_buffer_index pool (some 2097152) (some 256))
get_send_buffer_index-Obtained_example =
    get_send_buffer_index-Obtained pool (some 2097152) (some 256) pool-IsPool

send_count : pool.send_buffer_count ≡ 256
unfolding pool new_buffer_pool alloc_send_buffers alloc_recv_buffers add_send_block was_accepted
    offer_block
send_count = refl

replenish_send_buffer-frees_example :
    IsPool (replenish_send_buffer pool 7)
    × ((j : ℕ)
        → taken (replenish_send_buffer pool 7).available j
          ≡ (if 7 == j then false else taken pool.available j))
replenish_send_buffer-frees_example =
    replenish_send_buffer-frees pool 7 pool-IsPool (omega (arith, send_count))

get_send_buffer-Located_example :
    (7 < pool.send_buffer_count → Located pool.send_pool 7 (get_send_buffer pool 7))
    × (pool.send_buffer_count ≤ 7 → get_send_buffer pool 7 ≡ Pointer.null)
get_send_buffer-Located_example = get_send_buffer-Located pool 7 pool-IsPool

get_recv_buffer-Located_example :
    let n = length pool.recv_pool * buffer_count in
    (300 < n → Located pool.recv_pool 300 (get_recv_buffer pool 300))
    × ((n ≤ 300 → 300 < n + buffer_count → get_recv_buffer pool 300 ≡ Pointer.outside)
        × (n + buffer_count ≤ 300 → get_recv_buffer pool 300 ≡ Pointer.null))
get_recv_buffer-Located_example = get_recv_buffer-Located pool 300

alloc_recv_buffers-Extended_example :
    Extended pool (some 2097152) (alloc_recv_buffers pool (some 2097152))
alloc_recv_buffers-Extended_example =
    alloc_recv_buffers-Extended pool (some 2097152) pool-IsReceiving

-- The second offer of the new pool, and the others.
abbrev second : Offer
second = record { bid = 1; address = 6144 }

abbrev first_offer : List Offer
first_offer = record { bid = 0; address = 4096 } ∷ []

ring_split : pool.buf_ring ≡ first_offer ++ (second ∷ block_offers 0 4096 2 254)
unfolding pool new_buffer_pool alloc_send_buffers alloc_recv_buffers add_send_block was_accepted
    offer_block block_offers
ring_split = refl

replenish_recv_buffer-returns_example :
    let ring = first_offer ++ block_offers 0 4096 2 254 in
    let taken : BufferPool = record pool { buf_ring = ring } in
    let back = replenish_recv_buffer taken 6144 1 in
    (get_recv_buffer taken 1 ≡ Pointer.at 6144)
    × (back.buf_ring ≡ ring ++ (second ∷ []))
    × (back.recv_pool ≡ pool.recv_pool)
    × IsReceiving back
replenish_recv_buffer-returns_example =
    replenish_recv_buffer-returns pool first_offer second (block_offers 0 4096 2 254)
      pool-IsReceiving ring_split

new_buffer_pool-IsPool_example :
    let p = new_buffer_pool (some 4096) none none in IsPool p × IsReceiving p
new_buffer_pool-IsPool_example = new_buffer_pool-IsPool (some 4096) none none

replenish-get_example :
    let r = get_send_buffer_index pool none none in
    taken (replenish_send_buffer r.1 r.0).available 9 ≡ taken pool.available 9
replenish-get_example =
    replenish-get pool none none pool-IsPool (omega (arith, first_index)) 9
      (omega (arith, send_count))
