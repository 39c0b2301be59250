-- ===== src/Server/Upgrade.antt =====
-- TcpConnection::switch_service of src/net/tcp_connection.cc and the session that it starts.
use mathlib.Core.Option.{some-injective}
use Prim.Native.String.{String}
use jdocs.Base.{ℕ, ◌≡◌, sym, ap, ◌∙◌, Bool, true, false, Option, none, some, bind-some, ◌>>=◌}
use jdocs.Server.Defs.{
  JdocsServer, set_user, add_user_session, ServiceId, TcpConnection, router, switch_service,
}

pub add_user_session-some :
    (s : JdocsServer) (u conn_id : ℕ) (t : JdocsServer)
    → add_user_session s u conn_id ≡ some t
    → t ≡ set_user s u (some conn_id)
unfolding add_user_session
add_user_session-some s u conn_id t e = by_entry (s.user_map u) e
  where
    by_entry :
        (p : Option ℕ)
        → (elim p as (λ _. Option JdocsServer) [
          | none ↦ some (set_user s u (some conn_id))
          | some other ↦ none
        ])
          ≡ some t
        → t ≡ set_user s u (some conn_id)
    by_entry none e = sym (some-injective _ _ e)
    by_entry (some other) e = absurd cc

-- A connection that switches to a service gets the number, and the server the session.
pub switch_service-some :
    (s : JdocsServer) (c d : TcpConnection) (path : String) (user : Option ℕ) (t : JdocsServer)
    → switch_service s c path user ≡ some (t, d, true)
    → (u : ℕ) × (service_id : ServiceId) × (add_user_session s u c.conn_id ≡ some t)
      × (d ≡ record c { user_id = u; service_id = service_id })
unfolding switch_service
switch_service-some s c d path user t e = by_route (router path) user e
  where
    by_route :
        (r : Option ServiceId) (user : Option ℕ)
        → (elim r as (λ _. Option (JdocsServer × TcpConnection × Bool)) [
          | none ↦ some (s, c, false)
          | some service_id ↦ elim user [
            | none ↦ some (s, c, false)
            | some user_id ↦ add_user_session s user_id c.conn_id >>= λ s'.
                some (s', record c { user_id = user_id; service_id = service_id }, true)
          ]
        ])
          ≡ some (t, d, true)
        → (u : ℕ) × (service_id : ServiceId) × (add_user_session s u c.conn_id ≡ some t)
          × (d ≡ record c { user_id = u; service_id = service_id })
    by_route none user e =
        let clash : false ≡ true = ap (λ r. r.2) (some-injective _ _ e) in absurd cc
    by_route (some service_id) none e =
        let clash : false ≡ true = ap (λ r. r.2) (some-injective _ _ e) in absurd cc
    by_route (some service_id) (some u) e =
        let (s', added, e2) = bind-some (add_user_session s u c.conn_id) _ e in
        let pair = some-injective _ _ e2 in
        (u, service_id, added ∙ ap some (ap (λ r. r.0) pair), sym (ap (λ r. r.1) pair))
