-- ===== src/Server/Routing.antt =====
-- The ids of connections and the rings that they belong to, src/core/server.h and event_loop.cc.
use Prim.Native.String.{String}
use jdocs.Base.{
  ℕ, ◌^◌, ◌<◌, ◌≡◌, refl, sym, subst, true, Bool-cases, inl, inr, Option, some, ◌==◌, ==_iff,
  if◌then◌else◌,
}
use jdocs.Core.Context.{cqe_to_conn_id}
use jdocs.Server.Defs.{
  switch_service, JdocsServer, connection_id_to_ring_fd, TcpConnection, Worker, set_connection,
  submit_cancel, close, del_user_session,
}
use jdocs.Server.Reach.{System, set_worker, set_came, Step, Reach, Belongs, Placed, IsRouted}
use jdocs.Server.Upgrade.{switch_service-some, add_user_session-some}
use jdocs.Server.Accept.{handle_accept-IsRouted}
use jdocs.Server.Tables.{
  set_connection-Placed, handle_fd_pass-Placed, handle_close-Placed, handle_shutdown-Placed,
  handle_cancel-Placed, prep_cross_thread_msg-Placed,
}

set_worker-IsRouted :
    (y : System) (k : ℕ) (w : Worker)
    → IsRouted y
    → Placed y.server (y.server.ring_fds k) w
    → IsRouted (set_worker y k w)
set_worker-IsRouted y k w h p = record {
  count = h.count;
  passing = h.passing;
  placed = λ j. elim (Bool-cases (k == j)) [
    | inl same ↦
        rw same (subst (λ i. Placed y.server (y.server.ring_fds i) w) ((==_iff k j).0 same) p)
    | inr other ↦ rw other (h.placed j)
  ];
}

user_map-Belongs :
    (s : JdocsServer) (count : ℕ) (users : ℕ → Option ℕ) (conn_id ring_fd : ℕ)
    → Belongs s conn_id ring_fd
    → Belongs (record s { conn_count = count; user_map = users }) conn_id ring_fd
unfolding Belongs connection_id_to_ring_fd
user_map-Belongs s count users conn_id ring_fd b = b

-- The counter and the rings do not change when a connection is closed.
abbrev SameRings : JdocsServer → JdocsServer → Type 0
SameRings s t =
    (t.conn_count ≡ s.conn_count)
    × ((conn_id ring_fd : ℕ) → Belongs s conn_id ring_fd → Belongs t conn_id ring_fd)
    × ((k : ℕ) → t.ring_fds k ≡ s.ring_fds k)

closed-SameRings :
    (s : JdocsServer) (user_id : ℕ)
    → SameRings s (if user_id == 0 then s else del_user_session s user_id)
unfolding del_user_session
closed-SameRings s user_id = elim (Bool-cases (user_id == 0)) [
  | inl anonymous ↦ rw anonymous (refl, λ c r b. b, λ k. refl)
  | inr user ↦ rw user (refl, λ c r b. user_map-Belongs s s.conn_count _ c r b, λ k. refl)
]

moved-IsRouted :
    (y : System) (t : JdocsServer)
    → SameRings y.server t
    → IsRouted y
    → IsRouted (record y { server = t })
moved-IsRouted y t (count, belongs, rings) h = record {
  count = subst (λ n. n < 2 ^ 28) (sym count) h.count;
  passing = λ entry ring_fd fd data_ m e. belongs _ _ (h.passing entry ring_fd fd data_ m e);
  placed = λ k conn_id c e.
      subst (Belongs t conn_id) (sym (rings k)) (belongs _ _ (h.placed k conn_id c e));
}

close-IsRouted :
    (y : System) (k conn_id : ℕ) (c : TcpConnection)
    → IsRouted y
    → (y.workers k).conn_map conn_id ≡ some c
    → IsRouted (record (set_worker y k (close y.server (y.workers k) conn_id c).1) {
      server = (close y.server (y.workers k) conn_id c).0;
    })
unfolding close submit_cancel
close-IsRouted y k conn_id c h e =
    let w = y.workers k in
    elim (Bool-cases c.closed) [
      | inl done ↦ rw done (set_worker-IsRouted y k w h (h.placed k))
      | inr still ↦
          let queued : Worker = submit_cancel w c.fd c.conn_id in
          let put = set_connection queued conn_id (some (record c { closed = true })) in
          rw still (
            moved-IsRouted (set_worker y k put) _ (closed-SameRings y.server c.user_id) (
              set_worker-IsRouted y k put h (
                set_connection-Placed y.server (y.server.ring_fds k) queued (h.placed k) conn_id _
                  (h.placed k conn_id c e))))
    ]

set_came-IsRouted : (y : System) (conn_id : ℕ) → IsRouted y → IsRouted (set_came y conn_id)
set_came-IsRouted y conn_id h = record { count = h.count; passing = h.passing; placed = h.placed }

switch_service-SameRings :
    (s : JdocsServer) (c d : TcpConnection) (path : String) (user : Option ℕ) (t : JdocsServer)
    → switch_service s c path user ≡ some (t, d, true)
    → SameRings s t
switch_service-SameRings s c d path user t e =
    let (u, service_id, added, same) = switch_service-some s c d path user t e in
    subst (SameRings s) (sym (add_user_session-some s u c.conn_id t added))
      (refl, λ id r b. user_map-Belongs s s.conn_count _ id r b, λ k. refl)

pub Step-IsRouted : {y z : System} → IsRouted y → Step y z → IsRouted z
Step-IsRouted {y} h (Step.accepted cqe s queue low e) =
    handle_accept-IsRouted y cqe.res cqe.user_data cqe.more s queue h low e
Step-IsRouted {y} h (Step.passed k entry ring_fd fd cqe w m asks late own e) =
    let b =
      subst (Belongs y.server (cqe_to_conn_id cqe.user_data)) (sym own)
        (h.passing entry ring_fd fd cqe.user_data m asks) in
    set_came-IsRouted (set_worker y k w) (cqe_to_conn_id cqe.user_data) (
      set_worker-IsRouted y k w h (
        handle_fd_pass-Placed y.server (y.server.ring_fds k) (y.workers k) (h.placed k) cqe.res
          cqe.user_data cqe.more w b e))
Step-IsRouted {y} h (Step.upgrading k conn_id c d path user s e still guest u) =
    let v = set_connection (y.workers k) conn_id (some d) in
    moved-IsRouted (set_worker y k v) s (switch_service-SameRings y.server c d path user s u) (
      set_worker-IsRouted y k v h (
        set_connection-Placed y.server (y.server.ring_fds k) (y.workers k) (h.placed k) conn_id d
          (h.placed k conn_id c e)))
Step-IsRouted {y} h (Step.shut_down k cqe) = set_worker-IsRouted y k _ h (
    handle_shutdown-Placed y.server (y.server.ring_fds k) (y.workers k) (h.placed k) cqe.res
      cqe.user_data cqe.more)
Step-IsRouted {y} h (Step.cancelled k entry fd cqe m asks same) =
    set_worker-IsRouted y k _ h
      (handle_cancel-Placed y.server (y.server.ring_fds k) (y.workers k) (h.placed k) cqe)
Step-IsRouted {y} h (Step.finished k entry fd cqe w m asks same e) = set_worker-IsRouted y k w h (
    handle_close-Placed y.server (y.server.ring_fds k) (y.workers k) (h.placed k) cqe.res
      cqe.user_data cqe.more w e)
Step-IsRouted {y} h (Step.closing k conn_id c e) = close-IsRouted y k conn_id c h e
Step-IsRouted {y} h (Step.sending k conn_id context) = set_worker-IsRouted y k _ h (
    prep_cross_thread_msg-Placed y.server (y.server.ring_fds k) (y.workers k) (h.placed k)
      (y.server.ring_fds k) conn_id context)

pub Reach-IsRouted : {y z : System} → IsRouted y → Reach y z → IsRouted z
Reach-IsRouted h Reach.here = h
Reach-IsRouted h (Reach.next r s) = Step-IsRouted (Reach-IsRouted h r) s
