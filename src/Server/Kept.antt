-- ===== src/Server/Kept.antt =====
-- The handlers of src/core/event_loop.cc keep the connections of a worker tidy.
use mathlib.Core.Option.{some-injective}
use jdocs.Base.{
  ℕ, ◌%◌, ◌^◌, ◌<◌, ◌≡◌, refl, sym, ap, ◌∙◌, subst, Bool, true, false, Bool-cases, inl, inr, Option,
  none, some, arith, ◌==◌, if◌then◌else◌, [], ◌∷◌, ◌++◌,
}
use jdocs.Core.Context.{OpCode, cqe_to_conn_id, cqe_to_fd}
use jdocs.Server.Defs.{
  JdocsServer, connection_id_to_ring_fd, recv_multishot, cancel_fd, close_direct, shutdown, Sqe,
  sqe, Result, ok, failed, TcpConnection, new_tcp_connection, Worker, set_connection,
  add_connection, prepare, prep_recv, prep_close, submit_cancel, close,
}
use jdocs.Server.Handlers.{
  enfile, conn_idle_timeout, handle_fd_pass, handle_shutdown, handle_close, prep_cross_thread_msg,
}
use jdocs.Server.Tidy.{
  Gone, IsTidy, sqe-id, prepare-IsTidy, set_connection-IsTidy, grow-IsTidy, del_connection-IsTidy,
}

module _ (came : ℕ → Bool) (w : Worker) (h : IsTidy came w) where
  -- No connection stands under 0.
  zero-Gone : (c : ℕ) → c ≡ 0 → Gone came w c
  unfolding Gone
  zero-Gone c z =
      (inl z, λ d there. let (_, _, pos, _) = h.ids c d there in absurd (omega (arith, pos, z)))

  pub handle_shutdown-IsTidy :
      (res : Result) (user_data : ℕ) (more : Bool)
      → IsTidy came (handle_shutdown w (record { res = res; user_data = user_data; more = more }))
  unfolding handle_shutdown
  handle_shutdown-IsTidy (ok n) user_data more = h
  handle_shutdown-IsTidy (failed errno) user_data more =
      let fd = cqe_to_fd user_data in
      prepare-IsTidy came w h (sqe (close_direct fd) OpCode.close 0 fd)
        (λ l. zero-Gone _ (sqe-id (close_direct fd) OpCode.close 0 fd ∙ omega arith))

  short_id : (user_data : ℕ) → cqe_to_conn_id user_data % 2 ^ 28 ≡ cqe_to_conn_id user_data
  unfolding cqe_to_conn_id
  short_id user_data = omega arith

  pub prep_close-IsTidy :
      (fd user_data : ℕ)
      → Gone came w (cqe_to_conn_id user_data)
      → IsTidy came (prep_close w fd (cqe_to_conn_id user_data))
  unfolding prep_close Gone
  prep_close-IsTidy fd user_data g =
      let c = cqe_to_conn_id user_data in
      let first : Sqe = record (sqe (shutdown fd) OpCode.shutdown c fd) { io_link = true } in
      let same = sqe-id (close_direct fd) OpCode.close c fd ∙ short_id user_data in
      prepare-IsTidy came (prepare w first) (prepare-IsTidy came w h first (λ l. absurd cc))
        (sqe (close_direct fd) OpCode.close c fd) (λ l. subst (Gone came w) (sym same) g)

  pub handle_close-IsTidy :
      (res : Result) (user_data : ℕ) (more : Bool) (v : Worker)
      → handle_close true w (record { res = res; user_data = user_data; more = more }) ≡ some v
      → IsTidy came v
  unfolding handle_close
  handle_close-IsTidy (failed errno) user_data more v e = absurd cc
  handle_close-IsTidy (ok n) user_data more v e =
      subst (IsTidy came) (some-injective _ _ e)
        (del_connection-IsTidy came w h (cqe_to_conn_id user_data))

  pub prep_cross_thread_msg-IsTidy :
      (s : JdocsServer) (own_fd conn_id context : ℕ)
      → IsTidy came (prep_cross_thread_msg s own_fd w conn_id context).0
  unfolding prep_cross_thread_msg
  prep_cross_thread_msg-IsTidy s own_fd conn_id context =
      elim (Bool-cases (connection_id_to_ring_fd s conn_id == own_fd)) [
        | inl own ↦ rw own (prepare-IsTidy came w h _ (λ l. absurd cc))
        | inr away ↦ rw away (prepare-IsTidy came w h _ (λ l. absurd cc))
      ]

  pub close-IsTidy :
      (s : JdocsServer) (conn_id : ℕ) (c : TcpConnection)
      → w.conn_map conn_id ≡ some c
      → IsTidy came (close s w conn_id c).1
  unfolding close submit_cancel Gone
  close-IsTidy s conn_id c there =
      let (own, known, pos, low) = h.ids conn_id c there in
      elim (Bool-cases c.closed) [
        | inl done ↦ rw done h
        | inr still ↦
            let put = set_connection w conn_id (some (record c { closed = true })) in
            let tidy =
              set_connection-IsTidy came w h came conn_id (record c { closed = true }) (λ b e. e)
                (own, known, pos, low) (λ g. refl) in
            let same : conn_id
                ≡ cqe_to_conn_id (sqe (cancel_fd c.fd) OpCode.cancel c.conn_id c.fd).user_data =
              sym
                (sqe-id (cancel_fd c.fd) OpCode.cancel c.conn_id c.fd ∙ omega (arith, own, low)) in
            let gone : Gone came put conn_id = (
              inr known,
              λ d e.
                  let self : (conn_id == conn_id) ≡ true = ground arith in
                  let is : record c { closed = true } ≡ d = some-injective _ _ (rw self at e) in
                  sym (ap (λ (f : TcpConnection). f.closed) is),
            ) in
            rw still (
              prepare-IsTidy came put tidy (sqe (cancel_fd c.fd) OpCode.cancel c.conn_id c.fd)
                (λ l. subst (Gone came put) same gone))
      ]

  kept-IsTidy :
      (v : Worker) (full : Bool) → (if full then some w else none) ≡ some v → IsTidy came v
  kept-IsTidy v true e = subst (IsTidy came) (some-injective _ _ e) h
  kept-IsTidy v false e = absurd cc

  -- A descriptor that comes with a new id.
  added-IsTidy :
      (came' : ℕ → Bool) (c fd : ℕ)
      → came c ≡ false
      → ((b : ℕ) → came b ≡ true → came' b ≡ true)
      → came' c ≡ true
      → 0 < c
      → c < 2 ^ 28
      → IsTidy came' (add_connection w c (new_tcp_connection fd c))
  unfolding add_connection Gone
  added-IsTidy came' c fd late grows now pos low = by_entry (w.conn_map c)
    where
      by_entry :
          (q : Option TcpConnection)
          → IsTidy came' (elim q [
            | none ↦ set_connection w c (some (new_tcp_connection fd c))
            | some other ↦ w
          ])
      by_entry none =
          set_connection-IsTidy came w h came' c (new_tcp_connection fd c) grows
            (refl, now, pos, low)
            (λ (known, shut). elim known [
              | inl no_id ↦ absurd (omega (arith, no_id, pos))
              | inr old ↦ absurd cc
            ])
      by_entry (some other) = grow-IsTidy came w h came' grows

  pub handle_fd_pass-IsTidy :
      (came' : ℕ → Bool) (res : Result) (user_data : ℕ) (more : Bool) (v : Worker)
      → let c = cqe_to_conn_id user_data in
        came c ≡ false
        → ((b : ℕ) → came b ≡ true → came' b ≡ true)
        → came' c ≡ true
        → 0 < c
        → c < 2 ^ 28
        → handle_fd_pass w (record { res = res; user_data = user_data; more = more }) ≡ some v
        → IsTidy came' v
  unfolding handle_fd_pass prep_recv Gone
  handle_fd_pass-IsTidy came' (failed errno) user_data more v late grows now pos low e =
      let t = kept-IsTidy v (errno == enfile) e in grow-IsTidy came v t came' grows
  handle_fd_pass-IsTidy came' (ok fd) user_data more v late grows now pos low e =
      let c = cqe_to_conn_id user_data in
      let added = add_connection w c (new_tcp_connection fd c) in
      let t = added-IsTidy came' c fd late grows now pos low in
      let timed : Worker = record added {
        timers = added.timers ++ ((c, conn_idle_timeout) ∷ []);
      } in
      let tidy : IsTidy came' timed = record { ids = t.ids; leaving = t.leaving } in
      subst (IsTidy came') (some-injective _ _ e) (
        prepare-IsTidy came' timed tidy (sqe (recv_multishot fd) OpCode.recv c fd) (λ l. absurd cc))
