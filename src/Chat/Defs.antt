-- ===== src/Chat/Defs.antt =====
-- `ChatService::handle` of src/services/chat/chat_service.cc. `date` is what get_datetime returns,
-- `context` the address of the new context, and `dump` the text that nlohmann::json makes of a message.
use Prim.Native.String.{String}
use jdocs.Base.{ℕ, List, Option, none, some, ◌==◌, if◌then◌else◌}
use jdocs.Core.Context.{CtContext}
use jdocs.Server.Defs.{JdocsServer, get_connection_id, TcpConnection, Worker}
use jdocs.Server.Handlers.{Delivery, prep_cross_thread_msg}

pub record ChatMessage : Type 0 where
  pub user_id : ℕ
  pub message : String

pub record SenderMessage : Type 0 where
  pub user_id : ℕ
  pub date : String
  pub message : String

pub data Reply : Type 0 where
  sent_successfully bad_request : Reply

-- What the handler leaves: its worker, the context with where it went, and the reply.
pub record Chatted : Type 0 where
  pub worker : Worker
  pub delivery : Option (CtContext × Delivery)
  pub reply : Reply

-- What is done with the connection id that was found.
unfoldable pub send_if_online :
    (text : List ℕ)
    → JdocsServer
    → (own_fd : ℕ) → Worker
    → TcpConnection
    → (context conn_id : ℕ) → Chatted
send_if_online text s own_fd w connection context conn_id =
    let (v, d) = prep_cross_thread_msg s own_fd w conn_id context in
    if conn_id == 0
    then record { worker = w; delivery = none; reply = sent_successfully }
    else record {
      worker = v;
      delivery =
          some (record { ref_count = 1; snd_conn_id = connection.conn_id; message = text }, d);
      reply = sent_successfully;
    }

-- `none` for the message stands for an exception of the parser.
unfoldable pub chat_handle :
    (dump : SenderMessage → List ℕ) (date : String)
    → JdocsServer
    → (own_fd : ℕ) → Worker
    → TcpConnection
    → (context : ℕ) → Option ChatMessage
    → Chatted
unfolding send_if_online
chat_handle dump date s own_fd w connection context none = record {
  worker = w;
  delivery = none;
  reply = bad_request;
}
chat_handle dump date s own_fd w connection context (some msg) =
    let text = dump (record { user_id = connection.user_id; date = date; message = msg.message }) in
    send_if_online text s own_fd w connection context (get_connection_id s msg.user_id)
