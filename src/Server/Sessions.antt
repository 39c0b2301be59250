-- ===== src/Server/Sessions.antt =====
-- The sessions of users, src/core/server.cc, against the connections of the workers.
use mathlib.Core.Option.{some-injective}
use jdocs.Base.{
  ℕ, ◌≡◌, refl, sym, ap, ◌∙◌, Bool, true, false, Bool-cases, inl, inr, Option, none, some, ◌==◌,
  ==_iff, if◌then◌else◌,
}
use jdocs.Core.Context.{cqe_to_conn_id}
use jdocs.Server.Defs.{
  JdocsServer, Result, ok, failed, TcpConnection, new_tcp_connection, Worker, set_connection,
  add_connection, del_connection, prep_recv,
}
use jdocs.Server.Handlers.{handle_fd_pass, handle_close}
use jdocs.Server.Reach.{System, set_worker}
use jdocs.Server.Tidy.{Gone, IsTidy}

-- The open connection of a user.
pub record Holder (workers : ℕ → Worker) (user_id conn_id : ℕ) : Type 0 where
  pub worker : ℕ
  pub connection : TcpConnection
  pub there : (workers worker).conn_map conn_id ≡ some connection
  pub still_open : connection.closed ≡ false
  pub user : connection.user_id ≡ user_id

-- Each session but that of user 0 is that of an open connection.
abbrev pub Held : JdocsServer → (ℕ → Worker) → Type 0
Held s workers = (u c : ℕ) → (u == 0) ≡ false → s.user_map u ≡ some c → Holder workers u c

pub record IsSession (y : System) : Type 0 where
  pub tidy : (k : ℕ) → IsTidy y.came (y.workers k)
  pub held : Held y.server y.workers

-- The open connections of a user keep their places.
abbrev pub Keeps : (user_id : ℕ) → Worker → Worker → Type 0
Keeps u w v =
    (c : ℕ) (d : TcpConnection)
    → w.conn_map c ≡ some d
    → d.closed ≡ false
    → d.user_id ≡ u
    → v.conn_map c ≡ some d

pub Holder-set_worker :
    (workers : ℕ → Worker) (k : ℕ) (v : Worker) (u c : ℕ)
    → Keeps u (workers k) v
    → Holder workers u c
    → Holder (λ j. if k == j then v else workers j) u c
Holder-set_worker workers k v u c keeps h = record {
  worker = h.worker;
  connection = h.connection;
  there = elim (Bool-cases (k == h.worker)) [
    | inl same ↦ rw same (
        keeps c h.connection
          (ap (λ j. (workers j).conn_map c) ((==_iff k h.worker).0 same) ∙ h.there) h.still_open
          h.user)
    | inr other ↦ rw other h.there
  ];
  still_open = h.still_open;
  user = h.user;
}

-- A worker is replaced by one that is tidy, and the sessions stay.
pub set_worker-IsSession :
    (y : System) (k : ℕ) (v : Worker)
    → IsSession y
    → IsTidy y.came v
    → ((u : ℕ) → (u == 0) ≡ false → Keeps u (y.workers k) v)
    → IsSession (set_worker y k v)
set_worker-IsSession y k v h t keeps = record {
  tidy = λ j. elim (Bool-cases (k == j)) [ inl same ↦ rw same t | inr other ↦ rw other (h.tidy j) ];
  held = λ u c some_user e.
      Holder-set_worker y.workers k v u c (keeps u some_user) (h.held u c some_user e);
}

pub handle_close-Keeps :
    (came : ℕ → Bool) (w : Worker) (res : Result) (user_data : ℕ) (more : Bool) (v : Worker) (u : ℕ)
    → Gone came w (cqe_to_conn_id user_data)
    → handle_close true w (record { res = res; user_data = user_data; more = more }) ≡ some v
    → Keeps u w v
unfolding handle_close del_connection Gone
handle_close-Keeps came w (failed errno) user_data more v u g e c d there still user = absurd cc
handle_close-Keeps came w (ok n) user_data more v u (known, shut) e c d there still user =
    let id = cqe_to_conn_id user_data in
    let removed : (if id == c then none else w.conn_map c) ≡ some d = elim (Bool-cases (id == c)) [
      | inl same ↦ let closed = shut d (ap w.conn_map ((==_iff id c).0 same) ∙ there) in absurd cc
      | inr apart ↦ rw apart there
    ] in
    ap (λ (x : Worker). x.conn_map c) (sym (some-injective _ _ e)) ∙ removed

add_connection-Keeps :
    (w : Worker) (id : ℕ) (n : TcpConnection) (u : ℕ) → Keeps u w (add_connection w id n)
unfolding add_connection
add_connection-Keeps w id n u c d there still user = by_entry (w.conn_map id) refl
  where
    by_entry :
        (q : Option TcpConnection)
        → w.conn_map id ≡ q
        → let v : Worker = elim q [ none ↦ set_connection w id (some n) | some other ↦ w ] in
          v.conn_map c ≡ some d
    by_entry none e = elim (Bool-cases (id == c)) [
      | inl same ↦
          let nothing : w.conn_map c ≡ none = ap w.conn_map (sym ((==_iff id c).0 same)) ∙ e in
          absurd cc
      | inr apart ↦ rw apart there
    ]
    by_entry (some other) e = there

pub handle_fd_pass-Keeps :
    (w : Worker) (res : Result) (user_data : ℕ) (more : Bool) (v : Worker) (u : ℕ)
    → handle_fd_pass w (record { res = res; user_data = user_data; more = more }) ≡ some v
    → Keeps u w v
unfolding handle_fd_pass prep_recv
handle_fd_pass-Keeps w (ok fd) user_data more v u e c d there still user =
    let id = cqe_to_conn_id user_data in
    ap (λ (x : Worker). x.conn_map c) (sym (some-injective _ _ e))
    ∙ add_connection-Keeps w id (new_tcp_connection fd id) u c d there still user
handle_fd_pass-Keeps w (failed errno) user_data more v u e c d there still user =
    kept (errno == 23) e
  where
    kept : (full : Bool) → (if full then some w else none) ≡ some v → v.conn_map c ≡ some d
    kept true e' = ap (λ (x : Worker). x.conn_map c) (sym (some-injective _ _ e')) ∙ there
    kept false e' = absurd cc
