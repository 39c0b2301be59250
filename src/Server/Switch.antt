-- ===== src/Server/Switch.antt =====
-- A connection that switches to a service or is closed, src/net/tcp_connection.cc, and the sessions.
use mathlib.Core.Option.{some-injective}
use jdocs.Base.{
  ==_self, ℕ, ◌≡◌, refl, sym, ap, ◌∙◌, Bool, true, false, Bool-cases, inl, inr, some, arith, ◌==◌,
  ==_iff, if◌then◌else◌,
}
use jdocs.Server.Defs.{
  JdocsServer, set_user, del_user_session, TcpConnection, Worker, set_connection, submit_cancel,
  close,
}
use jdocs.Server.Reach.{System, set_worker}
use jdocs.Server.Tidy.{Gone, set_connection-IsTidy}
use jdocs.Server.Kept.{close-IsTidy}
use jdocs.Server.Sessions.{IsSession, Keeps, Holder-set_worker, set_worker-IsSession}

-- The connection of one user is replaced, and others keep theirs.
set_connection-Keeps :
    (w : Worker) (id : ℕ) (c d : TcpConnection) (u : ℕ)
    → w.conn_map id ≡ some c
    → (c.user_id ≡ u → ⊥)
    → Keeps u w (set_connection w id (some d))
set_connection-Keeps w id c d u here apart b e there still user = elim (Bool-cases (id == b)) [
  | inl same ↦
      let is : c ≡ e =
        some-injective _ _ (sym here ∙ ap w.conn_map ((==_iff id b).0 same) ∙ there) in
      absurd (apart (ap (λ (f : TcpConnection). f.user_id) is ∙ user))
  | inr other ↦ rw other there
]

del_user_session-other :
    (s : JdocsServer) (v u c : ℕ)
    → (u == 0) ≡ false
    → (if v == 0 then s else del_user_session s v).user_map u ≡ some c
    → (s.user_map u ≡ some c) × (v ≡ u → ⊥)
unfolding del_user_session
del_user_session-other s v u c some_user e = elim (Bool-cases (v == 0)) [
  | inl guest ↦ let e' = rw guest at e in (e', λ same. ground (arith, some_user, guest, same))
  | inr known ↦
      let e' = rw known at e in
      elim (Bool-cases (v == u)) [
        | inl same ↦ let e2 = rw same at e' in absurd cc
        | inr other ↦ let e2 = rw other at e' in (e2, λ same. ground (arith, other, same))
      ]
]

pub closing-IsSession :
    (y : System) (k id : ℕ) (c : TcpConnection)
    → IsSession y
    → (y.workers k).conn_map id ≡ some c
    → IsSession (record (set_worker y k (close y.server (y.workers k) id c).1) {
      server = (close y.server (y.workers k) id c).0;
    })
unfolding close submit_cancel
closing-IsSession y k id c h here =
    let w = y.workers k in
    let t = close-IsTidy y.came w (h.tidy k) y.server id c here in
    elim (Bool-cases c.closed) [
      | inl done ↦ rw done (set_worker-IsSession y k w h (h.tidy k) (λ u nz b d there o e. there))
      | inr still ↦
          let t' = rw still at t in
          rw still (record {
            tidy = λ j. elim (Bool-cases (k == j)) [
              | inl same ↦ rw same t'
              | inr other ↦ rw other (h.tidy j)
            ];
            held = λ u b some_user e.
                let (e', apart) = del_user_session-other y.server c.user_id u b some_user e in
                Holder-set_worker y.workers k _ u b
                  (set_connection-Keeps w id c (record c { closed = true }) u here apart)
                  (h.held u b some_user e');
          })
    ]

pub upgrading-IsSession :
    (y : System) (k id u : ℕ) (c d : TcpConnection) (s : JdocsServer)
    → IsSession y
    → (y.workers k).conn_map id ≡ some c
    → c.closed ≡ false
    → c.user_id ≡ 0
    → s ≡ set_user y.server u (some c.conn_id)
    → (d.conn_id ≡ c.conn_id) × (d.user_id ≡ u) × (d.closed ≡ c.closed)
    → IsSession (record (set_worker y k (set_connection (y.workers k) id (some d))) { server = s })
unfolding Gone
upgrading-IsSession y k id u c d s h here still guest is (same_id, same_user, same_closed) =
    let w = y.workers k in
    let v = set_connection w id (some d) in
    let (own, came, pos, low) = (h.tidy k).ids id c here in
    record {
      tidy = λ j. elim (Bool-cases (k == j)) [
        | inl same ↦ rw same (
            set_connection-IsTidy y.came w (h.tidy k) y.came id d (λ b e. e)
              (same_id ∙ own, came, pos, low) (gone-closed y.came w id c here still))
        | inr other ↦ rw other (h.tidy j)
      ];
      held = λ u' c' nz e.
          let e' : (if u == u' then some c.conn_id else y.server.user_map u') ≡ some c' =
            ap (λ (t : JdocsServer). t.user_map u') (sym is) ∙ e in
          elim (Bool-cases (u == u')) [
            | inl same ↦
                let at_id : c.conn_id ≡ c' = some-injective _ _ (rw same at e') in
                record {
                  worker = k;
                  connection = d;
                  there = rw (==_self k) (rw ((==_iff id c').1 (sym own ∙ at_id)) refl);
                  still_open = same_closed ∙ still;
                  user = same_user ∙ (==_iff u u').0 same;
                }
            | inr other ↦
                Holder-set_worker y.workers k v u' c'
                  (set_connection-Keeps w id c d u' here (λ eq. ground (arith, nz, guest, eq)))
                  (h.held u' c' nz (rw other at e'))
          ];
    }
  where
    gone-closed :
        (came : ℕ → Bool) (w : Worker) (id : ℕ) (c : TcpConnection)
        → w.conn_map id ≡ some c
        → c.closed ≡ false
        → Gone came w id
        → d.closed ≡ true
    gone-closed came w id c here still g =
        let (known, shut) = g in let closed = shut c here in absurd cc
