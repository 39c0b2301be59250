-- ===== src/Core/Context.antt =====
-- The packing of completion data and the messages between threads, src/core/context.h. `a << k` is
-- `a * 2 ^ k`, `a & (2 ^ k - 1)` is `a % 2 ^ k`, `a >> k` is `a / 2 ^ k`, and `|` of bits that do not
-- meet is `+`. The union lays the fields out little-endian.
use jdocs.Base.{
  ℕ, zero, suc, ◌+◌, ◌-◌, ◌*◌, ◌/◌, ◌%◌, ◌^◌, ◌<◌, ◌≡◌, ap, ap₂, Bool, true, false, List, [], ◌∷◌,
  ◌++◌, arith, replicate, ◌==◌, u32_mod,
}

pub data OpCode : Type 0 where
  accept recv send send_zc cancel shutdown close fd_pass cross_thread_msg : OpCode
  timeout buf_rel nop : OpCode

unfoldable pub op_value : OpCode → ℕ
op_value OpCode.accept = 0
op_value OpCode.recv = 1
op_value OpCode.send = 2
op_value OpCode.send_zc = 3
op_value OpCode.cancel = 4
op_value OpCode.shutdown = 5
op_value OpCode.close = 6
op_value OpCode.fd_pass = 7
op_value OpCode.cross_thread_msg = 8
op_value OpCode.timeout = 9
op_value OpCode.buf_rel = 10
op_value OpCode.nop = 11

-- `(opcode << OP_SHIFT) | (conn_id & 0x0FFFFFFF)` in a uint32_t.
unfoldable pub op_conn_id : (opcode conn_id : ℕ) → ℕ
op_conn_id opcode conn_id = opcode * 2 ^ 28 % u32_mod + conn_id % 2 ^ 28

-- `fd` goes through a cast to uint16_t.
unfoldable pub context_encode : (opcode conn_id fd bid : ℕ) → ℕ
unfolding op_conn_id
context_encode opcode conn_id fd bid =
    op_conn_id opcode conn_id + u32_mod * (fd % 2 ^ 16 + 2 ^ 16 * bid)

unfoldable pub ctcontext_encode : (conn_id ctx_addr : ℕ) → ℕ
unfolding op_conn_id op_value
ctcontext_encode conn_id ctx_addr =
    op_conn_id (op_value OpCode.cross_thread_msg) conn_id + u32_mod * ctx_addr

unfoldable pub cqe_to_conn_id : ℕ → ℕ
cqe_to_conn_id user_data = user_data % u32_mod % 2 ^ 28

unfoldable pub cqe_to_op : ℕ → ℕ
cqe_to_op user_data = user_data % u32_mod / 2 ^ 28

unfoldable pub cqe_to_fd : ℕ → ℕ
cqe_to_fd user_data = user_data / u32_mod % 2 ^ 16

unfoldable pub cqe_to_bid : ℕ → ℕ
cqe_to_bid user_data = user_data / u32_mod / 2 ^ 16 % 2 ^ 16

unfoldable pub cqe_to_addr : ℕ → ℕ
cqe_to_addr user_data = user_data / u32_mod % u32_mod

-- The halves of an address, and the address that they make.
unfoldable pub ctcontext_high_addr : ℕ → ℕ
ctcontext_high_addr context = context / u32_mod

unfoldable pub ctcontext_low_addr : ℕ → ℕ
ctcontext_low_addr context = context % u32_mod

unfoldable pub get_ctcontext : (high_addr low_addr : ℕ) → ℕ
get_ctcontext high_addr low_addr = high_addr * u32_mod + low_addr

pub record CtContext : Type 0 where
  pub ref_count : ℕ
  pub snd_conn_id : ℕ
  pub message : List ℕ

-- The context after `fetch_sub` on its positive counter, and whether it is deleted.
unfoldable pub release_context : CtContext → CtContext × Bool
release_context c = (record c { ref_count = c.ref_count - 1 }, c.ref_count == 1)

-- The releases of several receivers one after the other, and what each of them deletes.
unfoldable pub releases : ℕ → CtContext → List Bool
releases zero c = []
releases (suc n) c = (release_context c).1 ∷ releases n (release_context c).0

op_value-lt : (op : OpCode) → op_value op < 16
unfolding op_value
op_value-lt op = ground arith

fields :
    (opcode conn_id fd bid : ℕ)
    → opcode < 16
    → bid < 2 ^ 16
    → let user_data = context_encode opcode conn_id fd bid in
      (cqe_to_op user_data ≡ opcode)
      × (cqe_to_conn_id user_data ≡ conn_id % 2 ^ 28)
      × (cqe_to_fd user_data ≡ fd % 2 ^ 16)
      × (cqe_to_bid user_data ≡ bid)
unfolding context_encode cqe_to_op cqe_to_conn_id cqe_to_fd cqe_to_bid
fields opcode conn_id fd bid ho h = omega (arith, ho, h)

-- What a completion carries is what its request was given: the operation code, the low 28 bits of the
-- connection id, and file descriptor and buffer id as 16-bit numbers.
pub context_encode-fields :
    (op : OpCode) (conn_id fd bid : ℕ)
    → bid < 2 ^ 16
    → let user_data = context_encode (op_value op) conn_id fd bid in
      (cqe_to_op user_data ≡ op_value op)
      × (cqe_to_conn_id user_data ≡ conn_id % 2 ^ 28)
      × (cqe_to_fd user_data ≡ fd % 2 ^ 16)
      × (cqe_to_bid user_data ≡ bid)
unfolding context_encode cqe_to_op cqe_to_conn_id cqe_to_fd cqe_to_bid
context_encode-fields op conn_id fd bid h = fields (op_value op) conn_id fd bid (op_value-lt op) h

-- A message for a connection id below 2 ^ 28 arrives there with its operation code, and the address
-- of its context comes back whole from the two halves that the completion carries.
pub ctcontext_encode-address :
    (conn_id context : ℕ)
    → conn_id < 2 ^ 28
    → context < 2 ^ 64
    → let user_data = ctcontext_encode conn_id (ctcontext_low_addr context) in
      (cqe_to_op user_data ≡ op_value OpCode.cross_thread_msg)
      × (cqe_to_conn_id user_data ≡ conn_id)
      × (get_ctcontext (ctcontext_high_addr context) (cqe_to_addr user_data) ≡ context)
unfolding ctcontext_encode cqe_to_op cqe_to_conn_id cqe_to_addr get_ctcontext ctcontext_high_addr
    ctcontext_low_addr op_value
ctcontext_encode-address conn_id context hc hx = omega (arith, hc, hx)

-- A context made for `n + 1` receivers is deleted by the last release, and by no other.
pub releases-last :
    (n : ℕ) (c : CtContext)
    → c.ref_count ≡ suc n
    → releases (suc n) c ≡ replicate n false ++ (true ∷ [])
unfolding releases release_context
releases-last zero c h =
    let last : (c.ref_count == 1) ≡ true = ground arith in ap (λ b. b ∷ []) last
releases-last (suc n) c h =
    let early : (c.ref_count == 1) ≡ false = ground arith in
    ap₂ ◌∷◌ early (releases-last n (release_context c).0 (omega (arith, h)))
