-- ===== src/Server/Handlers.antt =====
-- Handlers of completions, and the messages between event loops, src/core/event_loop.cc. A handler's
-- `none` stands for -1, which ends the loop. A worker's loop has `flag` true, and the master's has it false.
use jdocs.Base.{ℕ, Bool, false, List, [], ◌∷◌, ◌++◌, Option, none, some, ◌==◌, if◌then◌else◌}
use jdocs.Core.Context.{
  OpCode, op_value, context_encode, ctcontext_encode, cqe_to_conn_id, cqe_to_fd, cqe_to_addr,
  ctcontext_low_addr, ctcontext_high_addr, get_ctcontext,
}
use jdocs.Server.Defs.{
  JdocsServer, connection_id_to_ring_fd, get_next_connection_id, get_next_ring_instance,
  multishot_accept, close_direct, msg_ring, msg_ring_fd_alloc, unprepared, Sqe, ok, failed, Cqe,
  sqe, new_tcp_connection, Worker, get_connection, add_connection, del_connection, prepare,
  prep_recv, prep_close,
}

abbrev pub enfile : ℕ
enfile = 23

abbrev pub conn_idle_timeout : ℕ
conn_idle_timeout = 60000

-- The server and the requests that the loop prepares.
unfoldable pub handle_accept :
    (flag : Bool) → JdocsServer → List Sqe → Cqe → Option (JdocsServer × List Sqe)
unfolding get_next_ring_instance get_next_connection_id
handle_accept flag s queue cqe = elim cqe.res [
  | failed errno ↦ none
  | ok fd ↦
      if flag
      then none
      else let (ring_fd, s') = get_next_ring_instance s in
        let conn_id = get_next_connection_id s' in
        let data_ = context_encode (op_value OpCode.fd_pass) conn_id 0 0 in
        let again : List Sqe =
          if cqe.more
          then []
          else sqe (multishot_accept s.serv_fd) OpCode.accept 0 s.serv_fd ∷ [] in
        some (s', queue ++ (sqe (msg_ring_fd_alloc ring_fd fd data_) OpCode.nop conn_id fd ∷ again))
]

unfoldable pub handle_fd_pass : Worker → Cqe → Option Worker
unfolding add_connection prep_recv
handle_fd_pass w cqe = elim cqe.res [
  | failed errno ↦ if errno == enfile then some w else none
  | ok fd ↦
      let conn_id = cqe_to_conn_id cqe.user_data in
      let added = add_connection w conn_id (new_tcp_connection fd conn_id) in
      some (
        prep_recv (record added { timers = added.timers ++ ((conn_id, conn_idle_timeout) ∷ []) }) fd
          conn_id)
]

unfoldable pub handle_shutdown : Worker → Cqe → Worker
handle_shutdown w cqe = elim cqe.res [
  | ok n ↦ w
  | failed errno ↦
      let fd = cqe_to_fd cqe.user_data in prepare w (sqe (close_direct fd) OpCode.close 0 fd)
]

unfoldable pub handle_close : (flag : Bool) → Worker → Cqe → Option Worker
unfolding del_connection
handle_close flag w cqe = elim cqe.res [
  | failed errno ↦ none
  | ok n ↦ if flag then some (del_connection w (cqe_to_conn_id cqe.user_data)) else some w
]

unfoldable pub handle_cancel : Worker → Cqe → Worker
unfolding prep_close
handle_cancel w cqe = prep_close w (cqe_to_fd cqe.user_data) (cqe_to_conn_id cqe.user_data)

-- Where a message goes: to a connection of this loop, nowhere since the connection is not online, to
-- another ring, or nowhere since there is no context. The first two release the context.
pub data Delivery : Type 0 where
  handed : (conn_id context : ℕ) → Delivery
  offline : (conn_id context : ℕ) → Delivery
  posted : (ring_fd len data_ : ℕ) → Delivery
  no_context : Delivery

unfoldable pub deliver : Worker → (conn_id context : ℕ) → Delivery
unfolding get_connection
deliver w conn_id context = elim (get_connection w conn_id) [
  | none ↦ offline conn_id context
  | some c ↦ if c.closed then offline conn_id context else handed conn_id context
]

-- The entry that GetSqe returns is taken in both branches, and written to in one. In the other it keeps
-- what stood in it.
unfoldable pub prep_cross_thread_msg :
    JdocsServer → (own_fd : ℕ) → Worker → (conn_id context : ℕ) → Worker × Delivery
unfolding connection_id_to_ring_fd deliver
prep_cross_thread_msg s own_fd w conn_id context =
    let data_ = ctcontext_encode conn_id (ctcontext_low_addr context) in
    let ring_fd = connection_id_to_ring_fd s conn_id in
    let high = ctcontext_high_addr context in
    if ring_fd == own_fd
    then (
      prepare w (record { request = unprepared; user_data = 0; io_link = false }),
      deliver w conn_id context,
    )
    else (
      prepare w (sqe (msg_ring ring_fd high data_) OpCode.nop conn_id 0),
      posted ring_fd high data_,
    )

-- `get_ctcontext` of a result that is not negative.
unfoldable pub handle_cross_thread_msg : Worker → (res user_data : ℕ) → Delivery
unfolding deliver
handle_cross_thread_msg w res user_data =
    let context = get_ctcontext res (cqe_to_addr user_data) in
    if context == 0 then no_context else deliver w (cqe_to_conn_id user_data) context
