-- ===== src/Buffer/Defs.antt =====
-- `BufferPool` of src/core/buffer.h and buffer.cc. What posix_memalign gives is the argument `memory`, an
-- address or `none` for an error, and what io_uring_register_buffers_update_tag returns is the argument
-- `accepted`, with `none` for a negative number.
use jdocs.Base.{
  ℕ, zero, suc, ◌+◌, ◌*◌, ◌/◌, ◌%◌, ◌^◌, Bool, true, false, List, [], ◌∷◌, ◌++◌, Option, none, some,
  length, get_elem?, ltb, leb, ◌==◌, if◌then◌else◌,
}
use jdocs.Core.Context.{OpCode, op_value, context_encode}
use jdocs.Bitmap.Defs.{BitMap, new_bit_map, get_and_set_index, remove_index, no_index}
use jdocs.Bitmap.Ranges.{remove_index_range}

abbrev pub buffer_size : ℕ
buffer_size = 2048

abbrev pub buffer_entries_max : ℕ
buffer_entries_max = 16384

abbrev pub buffer_count : ℕ
buffer_count = 256

abbrev pub u16_mod : ℕ
u16_mod = 2 ^ 16

-- A buffer that the kernel may receive into: its id and its address.
pub record Offer : Type 0 where
  pub bid : ℕ
  pub address : ℕ

-- Send buffers registered from the slot `first` on.
pub record Registration : Type 0 where
  pub first : ℕ
  pub iovecs : List ℕ
  pub tag : ℕ

-- `buf_ring` has the offers in their order, `fixed` the registrations that the kernel accepted.
pub record BufferPool : Type 0 where
  pub recv_buffer_count : ℕ
  pub send_buffer_count : ℕ
  pub buf_ring : List Offer
  pub fixed : List Registration
  pub recv_pool : List ℕ
  pub send_pool : List ℕ
  pub available : BitMap

-- What a lookup returns; `outside` is a read behind the end of a vector.
pub data Pointer : Type 0 where
  null : Pointer
  outside : Pointer
  at : ℕ → Pointer

-- `pool[index] + kBufferSize * place`.
unfoldable pub buffer_in : List ℕ → (index place : ℕ) → Pointer
buffer_in pool index place = elim (get_elem? pool index) [
  | none ↦ outside
  | some base ↦ at (base + buffer_size * place)
]

unfoldable pub get_recv_buffer : BufferPool → ℕ → Pointer
unfolding buffer_in
get_recv_buffer p bid =
    let index = bid / buffer_count in
    if ltb (length p.recv_pool) index
    then null
    else buffer_in p.recv_pool index (bid % buffer_count)

unfoldable pub get_send_buffer : BufferPool → ℕ → Pointer
unfolding buffer_in
get_send_buffer p bidx =
    let index = bidx / buffer_count in
    if leb buffer_entries_max bidx
    then null
    else if leb (length p.send_pool) index
    then null
    else buffer_in p.send_pool index (bidx % buffer_count)

unfoldable pub replenish_recv_buffer : BufferPool → (buffer_addr bid : ℕ) → BufferPool
replenish_recv_buffer p buffer_addr bid = record p {
  buf_ring = p.buf_ring ++ (record { bid = bid; address = buffer_addr } ∷ []);
}

-- The loop of alloc_recv_buffers, with the number of rounds that are left.
unfoldable pub offer_block : BufferPool → (buffer_addr rounds : ℕ) → BufferPool
offer_block p buffer_addr zero = p
offer_block p buffer_addr (suc rounds) =
    let offer : Offer = record { bid = p.recv_buffer_count; address = buffer_addr } in
    let offered : BufferPool = record p {
      buf_ring = p.buf_ring ++ (offer ∷ []);
      recv_buffer_count = (p.recv_buffer_count + 1) % u16_mod;
    } in
    offer_block offered (buffer_addr + buffer_size) rounds

unfoldable pub alloc_recv_buffers : BufferPool → (memory : Option ℕ) → BufferPool
unfolding offer_block
alloc_recv_buffers p memory = if p.recv_buffer_count == buffer_entries_max then p else elim memory [
  | none ↦ p
  | some base ↦ offer_block (record p { recv_pool = p.recv_pool ++ (base ∷ []) }) base buffer_count
]

unfoldable pub iovecs_from : (buffer_addr rounds : ℕ) → List ℕ
iovecs_from buffer_addr zero = []
iovecs_from buffer_addr (suc rounds) = buffer_addr ∷ iovecs_from (buffer_addr + buffer_size) rounds

unfoldable pub add_send_block : BufferPool → (base : ℕ) → BufferPool
unfolding iovecs_from
add_send_block p base = record p {
  fixed =
      p.fixed
      ++ (record {
        first = p.send_buffer_count;
        iovecs = iovecs_from base buffer_count;
        tag = context_encode (op_value OpCode.buf_rel) 0 0 p.send_buffer_count;
      }
          ∷ []);
  send_pool = p.send_pool ++ (base ∷ []);
  available = remove_index_range p.available p.send_buffer_count buffer_count;
  send_buffer_count = (p.send_buffer_count + buffer_count) % u16_mod;
}

unfoldable pub was_accepted : Option ℕ → Bool
was_accepted none = false
was_accepted (some n) = n == buffer_count

unfoldable pub alloc_send_buffers : BufferPool → (memory accepted : Option ℕ) → BufferPool
unfolding add_send_block was_accepted
alloc_send_buffers p memory accepted =
    if p.send_buffer_count == buffer_entries_max then p else elim memory [
      | none ↦ p
      | some base ↦ if was_accepted accepted then add_send_block p base else p
    ]

-- What GetSendBufferIndex does after its first search. An index is a uint32_t, so that `no_index` is -1.
unfoldable pub grow_and_retry :
    BufferPool → (memory accepted : Option ℕ) → ℕ × BitMap → ℕ × BufferPool
unfolding alloc_send_buffers
grow_and_retry p memory accepted (index, available) =
    let grown = alloc_send_buffers (record p { available = available }) memory accepted in
    let (retried, available') = get_and_set_index grown.available in
    if index == no_index
    then (retried, record grown { available = available' })
    else (index, record p { available = available })

unfoldable pub get_send_buffer_index : BufferPool → (memory accepted : Option ℕ) → ℕ × BufferPool
unfolding grow_and_retry
get_send_buffer_index p memory accepted =
    grow_and_retry p memory accepted (get_and_set_index p.available)

unfoldable pub replenish_send_buffer : BufferPool → ℕ → BufferPool
replenish_send_buffer p bidx =
    if leb buffer_entries_max bidx
    then p
    else record p { available = (remove_index p.available bidx).1 }

-- The constructor, with what its calls get for its first blocks.
unfoldable pub new_buffer_pool : (recv_memory send_memory accepted : Option ℕ) → BufferPool
unfolding alloc_recv_buffers alloc_send_buffers
new_buffer_pool recv_memory send_memory accepted =
    let empty : BufferPool = record {
      recv_buffer_count = 0;
      send_buffer_count = 0;
      buf_ring = [];
      fixed = [];
      recv_pool = [];
      send_pool = [];
      available = new_bit_map buffer_entries_max true;
    } in
    alloc_send_buffers (alloc_recv_buffers empty recv_memory) send_memory accepted
