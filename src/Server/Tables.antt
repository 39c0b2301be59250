-- ===== src/Server/Tables.antt =====
-- The handlers of src/core/event_loop.cc and the connection table of a worker.
use mathlib.Core.Option.{some-injective}
use jdocs.Base.{
  ℕ, ◌≡◌, subst, Bool, true, false, Bool-cases, inl, inr, Option, none, some, ◌==◌, ==_iff,
  if◌then◌else◌,
}
use jdocs.Core.Context.{cqe_to_conn_id}
use jdocs.Server.Defs.{
  JdocsServer, connection_id_to_ring_fd, Result, ok, failed, Cqe, TcpConnection, Worker,
  set_connection, add_connection, del_connection, prep_recv, prep_close,
}
use jdocs.Server.Handlers.{
  enfile, handle_fd_pass, handle_shutdown, handle_close, handle_cancel, prep_cross_thread_msg,
}
use jdocs.Server.Reach.{Belongs, Placed}

module _ (s : JdocsServer) (ring_fd : ℕ) (w : Worker) (p : Placed s ring_fd w) where
  pub set_connection-Placed :
      (conn_id : ℕ) (c : TcpConnection)
      → Belongs s conn_id ring_fd
      → Placed s ring_fd (set_connection w conn_id (some c))
  set_connection-Placed conn_id c b other d = elim (Bool-cases (conn_id == other)) [
    | inl same ↦ λ e. subst (λ i. Belongs s i ring_fd) ((==_iff conn_id other).0 same) b
    | inr apart ↦ rw apart (p other d)
  ]

  del_connection-Placed : (conn_id : ℕ) → Placed s ring_fd (del_connection w conn_id)
  unfolding del_connection
  del_connection-Placed conn_id other d = elim (Bool-cases (conn_id == other)) [
    | inl same ↦ rw same (λ e. absurd cc)
    | inr apart ↦ rw apart (p other d)
  ]

  add_connection-Placed :
      (conn_id : ℕ) (c : TcpConnection)
      → Belongs s conn_id ring_fd
      → Placed s ring_fd (add_connection w conn_id c)
  unfolding add_connection
  add_connection-Placed conn_id c b = by_entry (w.conn_map conn_id)
    where
      by_entry :
          (q : Option TcpConnection)
          → Placed s ring_fd (elim q [ none ↦ set_connection w conn_id (some c) | some other ↦ w ])
      by_entry none = set_connection-Placed conn_id c b
      by_entry (some other) = p

  kept-Placed :
      (v : Worker) (full : Bool) → (if full then some w else none) ≡ some v → Placed s ring_fd v
  kept-Placed v true e = subst (Placed s ring_fd) (some-injective _ _ e) p
  kept-Placed v false e = absurd cc

  pub handle_fd_pass-Placed :
      (res : Result) (user_data : ℕ) (more : Bool) (v : Worker)
      → Belongs s (cqe_to_conn_id user_data) ring_fd
      → handle_fd_pass w (record { res = res; user_data = user_data; more = more }) ≡ some v
      → Placed s ring_fd v
  unfolding handle_fd_pass prep_recv
  handle_fd_pass-Placed (failed errno) user_data more v b e = kept-Placed v (errno == enfile) e
  handle_fd_pass-Placed (ok fd) user_data more v b e =
      subst (Placed s ring_fd) (some-injective _ _ e)
        (add_connection-Placed (cqe_to_conn_id user_data) _ b)

  pub handle_close-Placed :
      (res : Result) (user_data : ℕ) (more : Bool) (v : Worker)
      → handle_close true w (record { res = res; user_data = user_data; more = more }) ≡ some v
      → Placed s ring_fd v
  unfolding handle_close
  handle_close-Placed (failed errno) user_data more v e = absurd cc
  handle_close-Placed (ok n) user_data more v e =
      subst (Placed s ring_fd) (some-injective _ _ e)
        (del_connection-Placed (cqe_to_conn_id user_data))

  pub handle_shutdown-Placed :
      (res : Result) (user_data : ℕ) (more : Bool)
      → Placed s ring_fd
          (handle_shutdown w (record { res = res; user_data = user_data; more = more }))
  unfolding handle_shutdown
  handle_shutdown-Placed (ok n) user_data more = p
  handle_shutdown-Placed (failed errno) user_data more = p

  pub handle_cancel-Placed : (cqe : Cqe) → Placed s ring_fd (handle_cancel w cqe)
  unfolding handle_cancel prep_close
  handle_cancel-Placed cqe = p

  pub prep_cross_thread_msg-Placed :
      (own_fd conn_id context : ℕ)
      → Placed s ring_fd (prep_cross_thread_msg s own_fd w conn_id context).0
  unfolding prep_cross_thread_msg
  prep_cross_thread_msg-Placed own_fd conn_id context =
      elim (Bool-cases (connection_id_to_ring_fd s conn_id == own_fd)) [
        | inl own ↦ rw own p
        | inr away ↦ rw away p
      ]
