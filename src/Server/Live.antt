-- ===== src/Server/Live.antt =====
-- The steps of src/core/event_loop.cc and src/net/tcp_connection.cc keep each session with an open
-- connection.
use jdocs.Base.{
  ==_self, ℕ, ◌^◌, ◌<◌, ◌≡◌, refl, ap, ◌∙◌, subst, Bool, true, false, Bool-cases, inl, inr, ◌==◌,
  if◌then◌else◌,
}
use jdocs.Core.Context.{cqe_to_conn_id, cqe_to_fd}
use jdocs.Server.Defs.{
  JdocsServer, connection_id_to_ring_fd, Result, ok, failed, TcpConnection, Worker, prep_close,
}
use jdocs.Server.Handlers.{handle_shutdown, handle_cancel, prep_cross_thread_msg}
use jdocs.Server.Reach.{System, Step, Reach, set_worker, set_came, Belongs, IsRouted}
use jdocs.Server.Upgrade.{switch_service-some, add_user_session-some}
use jdocs.Server.Tidy.{leaves, Gone, IsTidy, grow-IsTidy}
use jdocs.Server.Kept.{
  handle_shutdown-IsTidy, prep_close-IsTidy, handle_close-IsTidy, prep_cross_thread_msg-IsTidy,
  handle_fd_pass-IsTidy,
}
use jdocs.Server.Accept.{handle_accept-user_map}
use jdocs.Server.Routing.{Reach-IsRouted}
use jdocs.Server.Sessions.{
  IsSession, Keeps, Holder-set_worker, set_worker-IsSession, handle_close-Keeps,
  handle_fd_pass-Keeps,
}
use jdocs.Server.Switch.{closing-IsSession, upgrading-IsSession}

grows : (c : ℕ) (came : ℕ → Bool) (b : ℕ) → came b ≡ true → (if c == b then true else came b) ≡ true
grows c came b e = elim (Bool-cases (c == b)) [ inl same ↦ rw same refl | inr other ↦ rw other e ]

passed_id : (s : JdocsServer) (c ring_fd : ℕ) → Belongs s c ring_fd → (0 < c) × (c < 2 ^ 28)
unfolding Belongs
passed_id s c ring_fd (pos, low, ring) = (pos, low)

prep_close-Keeps : (w : Worker) (fd id u : ℕ) → Keeps u w (prep_close w fd id)
unfolding prep_close
prep_close-Keeps w fd id u c d there still user = there

handle_shutdown-Keeps :
    (w : Worker) (res : Result) (user_data : ℕ) (more : Bool) (u : ℕ)
    → Keeps u w (handle_shutdown w (record { res = res; user_data = user_data; more = more }))
unfolding handle_shutdown
handle_shutdown-Keeps w (ok n) user_data more u c d there still user = there
handle_shutdown-Keeps w (failed errno) user_data more u c d there still user = there

prep_cross_thread_msg-Keeps :
    (s : JdocsServer) (own_fd : ℕ) (w : Worker) (id context u : ℕ)
    → Keeps u w (prep_cross_thread_msg s own_fd w id context).0
unfolding prep_cross_thread_msg
prep_cross_thread_msg-Keeps s own_fd w id context u c d there still user =
    elim (Bool-cases (connection_id_to_ring_fd s id == own_fd)) [
      | inl own ↦ rw own there
      | inr away ↦ rw away there
    ]

set_came-IsSession :
    (y : System) (k c : ℕ) (w : Worker)
    → IsSession y
    → IsTidy (λ b. if c == b then true else y.came b) w
    → ((u : ℕ) → (u == 0) ≡ false → Keeps u (y.workers k) w)
    → IsSession (set_came (set_worker y k w) c)
set_came-IsSession y k c w h t keeps = record {
  tidy = λ j. elim (Bool-cases (k == j)) [
    | inl same ↦ rw same t
    | inr other ↦ rw other (grow-IsTidy y.came (y.workers j) (h.tidy j) _ (grows c y.came))
  ];
  held = λ u b some_user e.
      Holder-set_worker y.workers k w u b (keeps u some_user) (h.held u b some_user e);
}

Step-IsSession : {y z : System} → IsRouted y → IsSession y → Step y z → IsSession z
unfolding handle_cancel
Step-IsSession {y} r h (Step.accepted cqe s queue low e) =
    let same = handle_accept-user_map y.server y.master cqe.res cqe.user_data cqe.more s queue e in
    record { tidy = h.tidy; held = λ u c some_user there. h.held u c some_user (same u ∙ there) }
Step-IsSession {y} r h (Step.passed k entry ring_fd fd cqe w m asks late own e) =
    let c = cqe_to_conn_id cqe.user_data in
    let (pos, low) =
      passed_id y.server c ring_fd (r.passing entry ring_fd fd cqe.user_data m asks) in
    set_came-IsSession y k c w h
      (handle_fd_pass-IsTidy y.came (y.workers k) (h.tidy k)
        (λ b. if c == b then true else y.came b) cqe.res cqe.user_data cqe.more w late
        (grows c y.came) (rw (==_self c) refl) pos low e)
      (λ u some_user. handle_fd_pass-Keeps (y.workers k) cqe.res cqe.user_data cqe.more w u e)
Step-IsSession {y} r h (Step.upgrading k id c d path user s here still guest e) =
    let (u, service_id, added, is) = switch_service-some y.server c d path user s e in
    upgrading-IsSession y k id u c d s h here still guest
      (add_user_session-some y.server u c.conn_id s added)
      (
        ap (λ (f : TcpConnection). f.conn_id) is,
        ap (λ (f : TcpConnection). f.user_id) is,
        ap (λ (f : TcpConnection). f.closed) is,
      )
Step-IsSession {y} r h (Step.closing k id c here) = closing-IsSession y k id c h here
Step-IsSession {y} r h (Step.cancelled k entry fd cqe m asks same) =
    let w = y.workers k in
    let g = (h.tidy k).leaving entry m (ap leaves asks) in
    set_worker-IsSession y k _ h
      (prep_close-IsTidy y.came w (h.tidy k) (cqe_to_fd cqe.user_data) cqe.user_data
        (subst (λ d. Gone y.came w (cqe_to_conn_id d)) same g))
      (λ u some_user. prep_close-Keeps w (cqe_to_fd cqe.user_data) (cqe_to_conn_id cqe.user_data) u)
Step-IsSession {y} r h (Step.shut_down k cqe) =
    set_worker-IsSession y k _ h
      (handle_shutdown-IsTidy y.came (y.workers k) (h.tidy k) cqe.res cqe.user_data cqe.more)
      (λ u some_user. handle_shutdown-Keeps (y.workers k) cqe.res cqe.user_data cqe.more u)
Step-IsSession {y} r h (Step.finished k entry fd cqe w m asks same e) =
    let g = (h.tidy k).leaving entry m (ap leaves asks) in
    let g' = subst (λ d. Gone y.came (y.workers k) (cqe_to_conn_id d)) same g in
    set_worker-IsSession y k w h
      (handle_close-IsTidy y.came (y.workers k) (h.tidy k) cqe.res cqe.user_data cqe.more w e)
      (λ u some_user.
        handle_close-Keeps y.came (y.workers k) cqe.res cqe.user_data cqe.more w u g' e)
Step-IsSession {y} r h (Step.sending k id context) =
    set_worker-IsSession y k _ h
      (prep_cross_thread_msg-IsTidy y.came (y.workers k) (h.tidy k) y.server (y.server.ring_fds k)
        id context)
      (λ u some_user.
        prep_cross_thread_msg-Keeps y.server (y.server.ring_fds k) (y.workers k) id context u)

pub Reach-IsSession : {y z : System} → IsRouted y → IsSession y → Reach y z → IsSession z
Reach-IsSession r h Reach.here = h
Reach-IsSession r h (Reach.next p s) = Step-IsSession (Reach-IsRouted r p) (Reach-IsSession r h p) s
