-- ===== src/Server/Messages.antt =====
-- A message from one connection to another through src/core/event_loop.cc.
use jdocs.Base.{
  ℕ, ◌^◌, ◌<◌, ◌≡◌, ◌⊎◌, refl, sym, ap, ◌∙◌, false, Bool-cases, inl, inr, [], ◌∷◌, ◌++◌, some,
  arith, ◌==◌, ==_iff,
}
use jdocs.Core.Context.{
  OpCode, op_value, ctcontext_encode, cqe_to_op, ctcontext_low_addr, ctcontext_high_addr,
  ctcontext_encode-address,
}
use jdocs.Server.Defs.{
  connection_id_to_ring_fd, msg_ring, sqe, TcpConnection, Worker, get_connection,
}
use jdocs.Server.Handlers.{handed, deliver, prep_cross_thread_msg, handle_cross_thread_msg}
use jdocs.Server.Reach.{System, Reach, new_system, Belongs, IsRouted}
use jdocs.Server.Accept.{no_more_passes}
use jdocs.Server.Routing.{Reach-IsRouted}

-- The message is handed to the connection at once, or a request for the ring of worker `k` carries data
-- with which this worker hands it to the connection.
unfoldable pub Arrives : System → (j k conn_id context : ℕ) → Type 0
Arrives y j k conn_id context =
    let ring_fd = y.server.ring_fds k in
    let w = y.workers j in
    let (v, d) = prep_cross_thread_msg y.server (y.server.ring_fds j) w conn_id context in
    ((j ≡ k) × (d ≡ handed conn_id context))
    ⊎ ((len data_ : ℕ) × (v.queue
          ≡ w.queue ++ (sqe (msg_ring ring_fd len data_) OpCode.nop conn_id 0 ∷ []))
        × (cqe_to_op data_ ≡ op_value OpCode.cross_thread_msg)
        × (handle_cross_thread_msg (y.workers k) len data_ ≡ handed conn_id context))

deliver-open :
    (w : Worker) (conn_id context : ℕ) (c : TcpConnection)
    → w.conn_map conn_id ≡ some c
    → c.closed ≡ false
    → deliver w conn_id context ≡ handed conn_id context
unfolding deliver get_connection
deliver-open w conn_id context c e still = rw (e, deliver) (rw still refl)

handle_cross_thread_msg-handed :
    (w : Worker) (conn_id context : ℕ) (c : TcpConnection)
    → w.conn_map conn_id ≡ some c
    → c.closed ≡ false
    → conn_id < 2 ^ 28
    → 0 < context
    → context < 2 ^ 63
    → let data_ = ctcontext_encode conn_id (ctcontext_low_addr context) in
      (cqe_to_op data_ ≡ op_value OpCode.cross_thread_msg)
      × (handle_cross_thread_msg w (ctcontext_high_addr context) data_ ≡ handed conn_id context)
unfolding handle_cross_thread_msg
handle_cross_thread_msg-handed w conn_id context c e still low pos fits =
    let data_ = ctcontext_encode conn_id (ctcontext_low_addr context) in
    let (op, id, address) = ctcontext_encode-address conn_id context low (omega (arith, fits)) in
    let there : (context == 0) ≡ false = ground (arith, pos) in
    (op, rw (address, id, there) (deliver-open w conn_id context c e still))

pub new_system-IsRouted :
    (ring_fds : ℕ → ℕ) (nr_threads serv_fd : ℕ) → IsRouted (new_system ring_fds nr_threads serv_fd)
new_system-IsRouted ring_fds nr_threads serv_fd = record {
  count = omega arith;
  passing = λ entry ring_fd fd data_ m e.
      absurd (no_more_passes false serv_fd entry ring_fd fd data_ m e);
  placed = λ k conn_id c e. absurd cc;
}

-- The rings of two workers have different file descriptors.
unfoldable pub Distinct : (ℕ → ℕ) → Type 0
Distinct ring_fds = (i j : ℕ) → ring_fds i ≡ ring_fds j → i ≡ j

-- For workers whose rings have different descriptors, a system that was reached from its start by steps that
-- give out ids below 2 ^ 28, and an open connection in the table of worker `k`: a
-- message that worker `j` prepares for this connection, with the address of a context in the lower half of
-- the address space, is handed to the connection by `j` itself if `j` is `k`, and otherwise goes to the
-- ring of worker `k`, which hands it to the connection.
pub Reach-Arrives :
    (ring_fds : ℕ → ℕ) (nr_threads serv_fd : ℕ) (y : System)
    → Reach (new_system ring_fds nr_threads serv_fd) y
    → Distinct y.server.ring_fds
    → (j k conn_id context : ℕ) (c : TcpConnection) → (y.workers k).conn_map conn_id ≡ some c
    → c.closed ≡ false
    → 0 < context
    → context < 2 ^ 63
    → Arrives y j k conn_id context
unfolding Arrives Distinct Belongs prep_cross_thread_msg
Reach-Arrives ring_fds nr_threads serv_fd y r apart j k conn_id context c e still pos fits =
    let h = Reach-IsRouted (new_system-IsRouted ring_fds nr_threads serv_fd) r in
    let (_, low, to_k) = h.placed k conn_id c e in
    let ring_fd = connection_id_to_ring_fd y.server conn_id in
    elim (Bool-cases (ring_fd == y.server.ring_fds j)) [
      | inl own ↦
          let same : j ≡ k = apart j k (sym ((==_iff _ _).0 own) ∙ to_k) in
          let here : (y.workers j).conn_map conn_id ≡ some c =
            ap (λ i. (y.workers i).conn_map conn_id) same ∙ e in
          rw own (inl (same, deliver-open (y.workers j) conn_id context c here still))
      | inr away ↦
          let (op, hands) =
            handle_cross_thread_msg-handed (y.workers k) conn_id context c e still low pos fits in
          rw away (
            inr (
              ctcontext_high_addr context,
              ctcontext_encode conn_id (ctcontext_low_addr context),
              ap
                  (λ f.
                    (y.workers j).queue
                    ++ (sqe
                          (msg_ring f (ctcontext_high_addr context)
                            (ctcontext_encode conn_id (ctcontext_low_addr context)))
                          OpCode.nop conn_id 0
                        ∷ []))
                  to_k,
              op,
              hands,
            ))
    ]
