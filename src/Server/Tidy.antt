-- ===== src/Server/Tidy.antt =====
-- The connections of a worker and the requests that end them, src/core/event_loop.cc.
use mathlib.Core.List.{Memᴰ}
use mathlib.Core.List.Memᴰ
use mathlib.Core.Option.{some-injective}
use jdocs.Base.{
  ℕ, ◌%◌, ◌^◌, ◌<◌, ◌≡◌, ◌⊎◌, sym, ap, ◌∙◌, subst, Bool, true, false, Bool-cases, inl, inr, some,
  arith, ◌==◌, ==_iff,
}
use jdocs.Core.Context.{OpCode, context_encode-fields, cqe_to_conn_id}
use jdocs.Server.Defs.{
  Request, cancel_fd, close_direct, Sqe, sqe, TcpConnection, Worker, set_connection, del_connection,
  prepare,
}

abbrev pub leaves : Request → Bool
leaves (cancel_fd fd) = true
leaves (close_direct fd) = true
leaves _ = false

-- The id stands for no connection, or for one that came and is closed if it is still there.
unfoldable pub Gone : (came : ℕ → Bool) → Worker → (conn_id : ℕ) → Type 0
Gone came w conn_id =
    ((conn_id ≡ 0) ⊎ (came conn_id ≡ true))
    × ((d : TcpConnection) → w.conn_map conn_id ≡ some d → d.closed ≡ true)

-- A connection stands under its id, which came, and only a closed one is cancelled or ended.
pub record IsTidy (came : ℕ → Bool) (w : Worker) : Type 0 where
  pub ids :
      (c : ℕ) (d : TcpConnection)
      → w.conn_map c ≡ some d
      → (d.conn_id ≡ c) × (came c ≡ true) × (0 < c) × (c < 2 ^ 28)
  pub leaving :
      (entry : Sqe)
      → Memᴰ entry w.queue
      → leaves entry.request ≡ true
      → Gone came w (cqe_to_conn_id entry.user_data)

pub sqe-id :
    (request : Request) (op : OpCode) (conn_id fd : ℕ)
    → cqe_to_conn_id (sqe request op conn_id fd).user_data ≡ conn_id % 2 ^ 28
sqe-id request op conn_id fd = (context_encode-fields op conn_id fd 0 (omega arith)).1

module _ (came : ℕ → Bool) (w : Worker) (h : IsTidy came w) where
  pub prepare-IsTidy :
      (entry : Sqe)
      → (leaves entry.request ≡ true → Gone came w (cqe_to_conn_id entry.user_data))
      → IsTidy came (prepare w entry)
  unfolding Gone
  prepare-IsTidy entry g = record {
    ids = h.ids;
    leaving = λ e m l. elim (Memᴰ.append_cases w.queue m) [
      | inl old ↦ h.leaving e old l
      | inr (Memᴰ.head same) ↦
          subst (λ (q : Sqe). leaves q.request ≡ true → Gone came w (cqe_to_conn_id q.user_data))
            (sym same) g l
      | inr (Memᴰ.tail late) ↦ absurd (Memᴰ.not-nil late)
    ];
  }

  pub set_connection-IsTidy :
      (came' : ℕ → Bool) (c : ℕ) (d : TcpConnection)
      → ((b : ℕ) → came b ≡ true → came' b ≡ true)
      → (d.conn_id ≡ c) × (came' c ≡ true) × (0 < c) × (c < 2 ^ 28)
      → (Gone came w c → d.closed ≡ true)
      → IsTidy came' (set_connection w c (some d))
  unfolding Gone
  set_connection-IsTidy came' c d grows id gone = record {
    ids = λ b e. elim (Bool-cases (c == b)) [
      | inl same ↦ rw same (λ there.
          let is : d ≡ e = some-injective _ _ there in
          subst (λ (f : TcpConnection). (f.conn_id ≡ b) × (came' b ≡ true) × (0 < b) × (b < 2 ^ 28))
            is
            (subst (λ a. (d.conn_id ≡ a) × (came' a ≡ true) × (0 < a) × (a < 2 ^ 28))
              ((==_iff c b).0 same) id))
      | inr apart ↦
          rw apart (λ there.
            let (own, known, pos, low) = h.ids b e there in (own, grows b known, pos, low))
    ];
    leaving = λ entry m l.
        let (known, shut) = h.leaving entry m l in
        let b = cqe_to_conn_id entry.user_data in
        let known' : (b ≡ 0) ⊎ (came' b ≡ true) = elim known [
          | inl no_id ↦ inl no_id
          | inr old ↦ inr (grows b old)
        ] in
        (
          known',
          λ e. elim (Bool-cases (c == b)) [
            | inl same ↦ rw same (λ there.
                let is : d ≡ e = some-injective _ _ there in
                let closed = gone (subst (Gone came w) (sym ((==_iff c b).0 same)) (known, shut)) in
                ap (λ (f : TcpConnection). f.closed) (sym is) ∙ closed)
            | inr apart ↦ rw apart (shut e)
          ],
        );
  }

  pub grow-IsTidy : (came' : ℕ → Bool) → ((b : ℕ) → came b ≡ true → came' b ≡ true) → IsTidy came' w
  unfolding Gone
  grow-IsTidy came' grows = record {
    ids =
        λ b e there. let (own, known, pos, low) = h.ids b e there in (own, grows b known, pos, low);
    leaving = λ entry m l.
        let (known, shut) = h.leaving entry m l in
        (elim known [ inl no_id ↦ inl no_id | inr old ↦ inr (grows _ old) ], shut);
  }

  pub del_connection-IsTidy : (c : ℕ) → IsTidy came (del_connection w c)
  unfolding Gone del_connection
  del_connection-IsTidy c = record {
    ids = λ b e. elim (Bool-cases (c == b)) [
      | inl same ↦ rw same (λ there. absurd cc)
      | inr apart ↦ rw apart (h.ids b e)
    ];
    leaving = λ entry m l.
        let (known, shut) = h.leaving entry m l in
        (
          known,
          λ e. elim (Bool-cases (c == cqe_to_conn_id entry.user_data)) [
            | inl same ↦ rw same (λ there. absurd cc)
            | inr apart ↦ rw apart (shut e)
          ],
        );
  }
