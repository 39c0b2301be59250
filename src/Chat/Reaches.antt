-- ===== src/Chat/Reaches.antt =====
-- A chat message and the connection of its user, src/services/chat/chat_service.cc over src/core.
use mathlib.Core.List.Memᴰ
use Prim.Native.String.{String}
use jdocs.Base.{if_false, ℕ, ◌^◌, ◌<◌, ◌≡◌, refl, ap, ◌∙◌, false, List, some, arith, ◌==◌}
use jdocs.Server.Defs.{JdocsServer, get_connection_id, TcpConnection}
use jdocs.Server.Handlers.{prep_cross_thread_msg}
use jdocs.Server.Reach.{System, Reach, new_system}
use jdocs.Server.Sessions.{Holder, IsSession}
use jdocs.Server.Live.{Reach-IsSession}
use jdocs.Server.Messages.{Arrives, Distinct, Reach-Arrives, new_system-IsRouted}
use jdocs.Chat.Defs.{
  ChatMessage, SenderMessage, Chatted, sent_successfully, send_if_online, chat_handle,
}

new_system-IsSession :
    (ring_fds : ℕ → ℕ) (nr_threads serv_fd : ℕ) → IsSession (new_system ring_fds nr_threads serv_fd)
new_system-IsSession ring_fds nr_threads serv_fd = record {
  tidy = λ k. record { ids = λ c d e. absurd cc; leaving = λ entry m l. absurd (Memᴰ.not-nil m) };
  held = λ u c some_user e. absurd cc;
}

get_connection_id-session :
    (s : JdocsServer) (u conn_id : ℕ)
    → s.user_map u ≡ some conn_id
    → get_connection_id s u ≡ conn_id
unfolding get_connection_id
get_connection_id-session s u conn_id e = rw (e, get_connection_id) refl

abbrev chat_send_to :
    (dump : SenderMessage → List ℕ) (date : String)
    → System
    → (j : ℕ) → TcpConnection
    → ℕ
    → ChatMessage
    → ℕ
    → Chatted
chat_send_to dump date y j sender context msg =
    send_if_online (dump (record { user_id = sender.user_id; date = date; message = msg.message }))
      y.server (y.server.ring_fds j) (y.workers j) sender context

-- The message went to an open connection of the user.
pub record Reaches (dump : SenderMessage → List ℕ) (date : String) (y : System) (j : ℕ)
    (sender : TcpConnection) (context : ℕ) (msg : ChatMessage) : Type 0 where
  pub conn_id : ℕ
  pub holder : Holder y.workers msg.user_id conn_id
  pub arrives : Arrives y j holder.worker conn_id context
  pub handled :
      let own_fd = y.server.ring_fds j in
      let (v, d) = prep_cross_thread_msg y.server own_fd (y.workers j) conn_id context in
      let text = dump (record { user_id = sender.user_id; date = date; message = msg.message }) in
      chat_handle dump date y.server own_fd (y.workers j) sender context (some msg) ≡ record {
        worker = v;
        delivery = some (record { ref_count = 1; snd_conn_id = sender.conn_id; message = text }, d);
        reply = sent_successfully;
      }

-- For workers whose rings have different descriptors, a system that was reached from its start by steps that
-- give out ids below 2 ^ 28, the address of a context in the lower half of the address space, and a message to a user other than 0 who has a session:
-- the chat service of worker `j` sends one context, with one reference, to an open connection that has this
-- user, and the message is handed to this connection by the worker that has it.
pub Reach-Reaches :
    (dump : SenderMessage → List ℕ) (date : String) (ring_fds : ℕ → ℕ) (nr_threads serv_fd : ℕ)
    (y : System)
    → Reach (new_system ring_fds nr_threads serv_fd) y
    → Distinct y.server.ring_fds
    → (j : ℕ) (sender : TcpConnection) (context : ℕ) (msg : ChatMessage) (conn_id : ℕ)
    → (msg.user_id == 0) ≡ false
    → y.server.user_map msg.user_id ≡ some conn_id
    → 0 < context
    → context < 2 ^ 63
    → Reaches dump date y j sender context msg
unfolding chat_handle send_if_online
Reach-Reaches dump date ring_fds nr_threads serv_fd y r apart j sender context msg conn_id some_user
      session pos fits =
    let routed = new_system-IsRouted ring_fds nr_threads serv_fd in
    let h = Reach-IsSession routed (new_system-IsSession ring_fds nr_threads serv_fd) r in
    let holder = h.held msg.user_id conn_id some_user session in
    let (_, _, positive, _) = (h.tidy holder.worker).ids conn_id holder.connection holder.there in
    let online : (conn_id == 0) ≡ false = ground (arith, positive) in
    record {
      conn_id = conn_id;
      holder = holder;
      arrives =
          Reach-Arrives ring_fds nr_threads serv_fd y r apart j holder.worker conn_id context
            holder.connection holder.there holder.still_open pos fits;
      handled =
          ap (chat_send_to dump date y j sender context msg)
            (get_connection_id-session y.server msg.user_id conn_id session)
          ∙ if_false (conn_id == 0) _ _ online;
    }
