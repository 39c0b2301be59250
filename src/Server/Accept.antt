-- ===== src/Server/Accept.antt =====
-- handle_accept of src/core/event_loop.cc: the ids that it gives away, and the rings that get them.
use mathlib.Core.List.{Memᴰ}
use mathlib.Core.List.Memᴰ
use mathlib.Core.Option.{some-injective}
use jdocs.Base.{
  ℕ, ◌+◌, ◌-◌, ◌%◌, ◌^◌, ◌<◌, ◌≡◌, sym, ap, ◌∙◌, subst, Bool, true, false, inl, inr, List, [], ◌∷◌,
  ◌++◌, some, arith, if◌then◌else◌, u32_mod,
}
use jdocs.Core.Context.{OpCode, op_value, context_encode, cqe_to_conn_id, context_encode-fields}
use jdocs.Server.Defs.{
  JdocsServer, connection_id_to_ring_fd, get_next_ring_instance, get_next_connection_id,
  msg_ring_fd_alloc, multishot_accept, Sqe, sqe, Result, ok, failed,
}
use jdocs.Server.Handlers.{handle_accept}
use jdocs.Server.Reach.{System, Belongs, IsRouted}

msg_ring_fd_alloc-data :
    (a b c x y z : ℕ) → msg_ring_fd_alloc a b c ≡ msg_ring_fd_alloc x y z → (a ≡ x) × (c ≡ z)
msg_ring_fd_alloc-data a b c x y z e = (cc, cc)

-- The id that handle_accept gives away, as the worker reads it.
next_id :
    (n : ℕ)
    → n + 1 < 2 ^ 28
    → cqe_to_conn_id (context_encode (op_value OpCode.fd_pass) ((n + 1) % u32_mod) 0 0) ≡ n + 1
next_id n low =
    let (_, id, _, _) =
      context_encode-fields OpCode.fd_pass ((n + 1) % u32_mod) 0 0 (omega arith) in
    id ∙ omega (arith, low)

next-Belongs :
    (s : JdocsServer)
    → s.conn_count + 1 < 2 ^ 28
    → Belongs s (s.conn_count + 1) (s.ring_fds (s.conn_count % s.nr_threads))
unfolding Belongs connection_id_to_ring_fd
next-Belongs s low =
    let back : (s.conn_count + 1 + (u32_mod - 1)) % u32_mod ≡ s.conn_count = omega (arith, low) in
    (omega arith, low, ap (λ n. s.ring_fds (n % s.nr_threads)) back)

module _ (y : System) (h : IsRouted y) where
  accepted-IsRouted :
      (fd count : ℕ) (data_ : ℕ) (again : List Sqe)
      → count < 2 ^ 28
      → Belongs y.server
          (cqe_to_conn_id data_)
          (y.server.ring_fds (y.server.conn_count % y.server.nr_threads))
      → ((entry : Sqe) (ring_fd fd' data_' : ℕ)
          → Memᴰ entry again
          → entry.request ≡ msg_ring_fd_alloc ring_fd fd' data_'
          → ⊥)
      → let ring_fd = y.server.ring_fds (y.server.conn_count % y.server.nr_threads) in
        let entry = sqe (msg_ring_fd_alloc ring_fd fd data_) OpCode.nop count fd in
        IsRouted (record y {
          server = record y.server { conn_count = count };
          master = y.master ++ (entry ∷ again);
        })
  unfolding Belongs connection_id_to_ring_fd
  accepted-IsRouted fd count data_ again low b others = record {
    count = low;
    passing = λ entry ring_fd fd' data_' m e. elim (Memᴰ.append_cases y.master m) [
      | inl old ↦ h.passing entry ring_fd fd' data_' old e
      | inr (Memᴰ.head same) ↦
          let here = y.server.ring_fds (y.server.conn_count % y.server.nr_threads) in
          let (ring, value) =
            msg_ring_fd_alloc-data _ _ _ _ _ _ (sym (ap (λ (q : Sqe). q.request) same) ∙ e) in
          subst (λ r. Belongs y.server (cqe_to_conn_id data_') r) ring
            (subst (λ d. Belongs y.server (cqe_to_conn_id d) here) value b)
      | inr (Memᴰ.tail late) ↦ absurd (others entry ring_fd fd' data_' late e)
    ];
    placed = h.placed;
  }

pub no_more_passes :
    (more : Bool) (serv_fd : ℕ) (entry : Sqe) (ring_fd fd data_ : ℕ)
    → Memᴰ entry (if more then [] else sqe (multishot_accept serv_fd) OpCode.accept 0 serv_fd ∷ [])
    → entry.request ≡ msg_ring_fd_alloc ring_fd fd data_
    → ⊥
no_more_passes true serv_fd entry ring_fd fd data_ m e = Memᴰ.not-nil m
no_more_passes false serv_fd entry ring_fd fd data_ (Memᴰ.head same) e =
    let clash : multishot_accept serv_fd ≡ msg_ring_fd_alloc ring_fd fd data_ =
      sym (ap (λ (q : Sqe). q.request) same) ∙ e in
    absurd cc
no_more_passes false serv_fd entry ring_fd fd data_ (Memᴰ.tail m) e = Memᴰ.not-nil m

pub handle_accept-IsRouted :
    (y : System) (res : Result) (user_data : ℕ) (more : Bool) (s : JdocsServer) (queue : List Sqe)
    → IsRouted y
    → y.server.conn_count + 1 < 2 ^ 28
    → handle_accept false y.server y.master
        (record { res = res; user_data = user_data; more = more })
      ≡ some (s, queue)
    → IsRouted (record y { server = s; master = queue })
unfolding handle_accept get_next_ring_instance get_next_connection_id
handle_accept-IsRouted y (failed errno) user_data more s queue h low e = absurd cc
handle_accept-IsRouted y (ok fd) user_data more s queue h low e =
    let n = y.server.conn_count in
    let conn_id = (n + 1) % u32_mod in
    let data_ = context_encode (op_value OpCode.fd_pass) conn_id 0 0 in
    let again : List Sqe =
      if more
      then []
      else sqe (multishot_accept y.server.serv_fd) OpCode.accept 0 y.server.serv_fd ∷ [] in
    let belongs =
      subst (λ c. Belongs y.server c (y.server.ring_fds (n % y.server.nr_threads)))
        (sym (next_id n low)) (next-Belongs y.server low) in
    subst (λ (r : JdocsServer × List Sqe). IsRouted (record y { server = r.0; master = r.1 }))
      (some-injective _ _ e)
      (accepted-IsRouted y h fd conn_id data_ again (omega (arith, low)) belongs
        (no_more_passes more y.server.serv_fd))

pub handle_accept-user_map :
    (s : JdocsServer) (q : List Sqe) (res : Result) (user_data : ℕ) (more : Bool) (t : JdocsServer)
    (queue : List Sqe)
    → handle_accept false s q (record { res = res; user_data = user_data; more = more })
      ≡ some (t, queue)
    → (u : ℕ) → s.user_map u ≡ t.user_map u
unfolding handle_accept get_next_ring_instance get_next_connection_id
handle_accept-user_map s q (failed errno) user_data more t queue e u = absurd cc
handle_accept-user_map s q (ok fd) user_data more t queue e u =
    ap (λ (r : JdocsServer × List Sqe). r.0.user_map u) (some-injective _ _ e)
