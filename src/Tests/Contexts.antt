-- ===== src/Tests/Contexts.antt =====
-- Completion data and messages between threads, src/core/context.h.
use jdocs.Base.{◌%◌, ◌^◌, ◌++◌, ◌≡◌, refl, arith, true, false, [], ◌∷◌, replicate}
use jdocs.Core.Context.{
  OpCode, op_value, context_encode, ctcontext_encode, cqe_to_op, cqe_to_conn_id, cqe_to_fd,
  cqe_to_bid, cqe_to_addr, get_ctcontext, ctcontext_high_addr, ctcontext_low_addr, CtContext,
  releases, context_encode-fields, ctcontext_encode-address, releases-last,
}

packed : context_encode (op_value OpCode.send_zc) 7 5 9 ≡ 0x0009_0005_3000_0007
unfolding context_encode op_value
packed = refl

context_encode-fields_example :
    let user_data = context_encode (op_value OpCode.send_zc) 7 5 9 in
    (cqe_to_op user_data ≡ op_value OpCode.send_zc)
    × (cqe_to_conn_id user_data ≡ 7 % 2 ^ 28)
    × (cqe_to_fd user_data ≡ 5 % 2 ^ 16)
    × (cqe_to_bid user_data ≡ 9)
context_encode-fields_example = context_encode-fields OpCode.send_zc 7 5 9 (omega arith)

ctcontext_encode-address_example :
    let user_data = ctcontext_encode 7 (ctcontext_low_addr 0x7f12_3456_789a) in
    (cqe_to_op user_data ≡ op_value OpCode.cross_thread_msg)
    × (cqe_to_conn_id user_data ≡ 7)
    × (get_ctcontext (ctcontext_high_addr 0x7f12_3456_789a) (cqe_to_addr user_data)
        ≡ 0x7f12_3456_789a)
ctcontext_encode-address_example =
    ctcontext_encode-address 7 0x7f12_3456_789a (omega arith) (omega arith)

abbrev shared : CtContext
shared = record { ref_count = 3; snd_conn_id = 1; message = b'h' ∷ b'i' ∷ [] }

releases-last_example : releases 3 shared ≡ replicate 2 false ++ (true ∷ [])
releases-last_example = releases-last 2 shared refl
