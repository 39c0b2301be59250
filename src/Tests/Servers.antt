-- ===== src/Tests/Servers.antt =====
-- Small runs of src/core/event_loop.cc and server.cc with two workers.
use mathlib.Core.List.Memᴰ
use jdocs.Base.{
  List, ℕ, ◌+◌, ◌≡◌, refl, arith, true, false, [], ◌∷◌, none, some, ◌++◌, ◌==◌, if◌then◌else◌,
  ◌>>=◌,
}
use jdocs.Core.Context.{OpCode, op_value, context_encode, cqe_to_conn_id}
use jdocs.Chat.Defs.{ChatMessage, SenderMessage}
use jdocs.Chat.Reaches.{Reaches, Reach-Reaches}
use jdocs.Server.Defs.{
  JdocsServer, TcpConnection, service_document, switch_service, set_connection, add_user_session,
  msg_ring_fd_alloc, recv_multishot, ok, Cqe, sqe, Sqe, Worker, prep_recv, add_connection,
  new_tcp_connection,
}
use jdocs.Server.Handlers.{handle_accept, handle_fd_pass}
use jdocs.Server.Reach.{System, Step, Reach, new_system, set_worker, set_came}
use jdocs.Server.Messages.{Distinct, Arrives, Reach-Arrives}

abbrev rings : ℕ → ℕ
rings k = k + 7

rings-Distinct : Distinct rings
unfolding Distinct
rings-Distinct i j e = omega (arith, e)

abbrev start : System
start = new_system rings 2 5

-- Completions of the accept and of the descriptor's way to worker 0.
abbrev came : Cqe
came = record { res = ok 3; user_data = 0; more = true }

abbrev first_data : ℕ
first_data = context_encode (op_value OpCode.fd_pass) 1 0 0

abbrev there : Cqe
there = record { res = ok 9; user_data = first_data; more = false }

abbrev pass : Sqe
pass = sqe (msg_ring_fd_alloc 7 3 first_data) OpCode.nop 1 3

abbrev one_accepted : System
one_accepted = record start {
  server = record start.server { conn_count = 1 };
  master = start.master ++ (pass ∷ []);
}

abbrev holder : Worker
holder = record {
  conn_map = λ c. if 1 == c then some (new_tcp_connection 9 1) else none;
  queue = sqe (recv_multishot 9) OpCode.recv 1 9 ∷ [];
  timers = (1, 60000) ∷ [];
}

abbrev one_placed : System
one_placed = set_came (set_worker one_accepted 0 holder) 1

accepts :
    handle_accept false start.server start.master came
    ≡ some (one_accepted.server, one_accepted.master)
unfolding handle_accept
accepts = refl

passes : handle_fd_pass (start.workers 0) there ≡ some holder
unfolding handle_fd_pass prep_recv add_connection cqe_to_conn_id context_encode op_value
passes = refl

one_placed-Reach : Reach start one_placed
unfolding cqe_to_conn_id context_encode op_value
one_placed-Reach =
    Reach.next
      (Reach.next Reach.here
        (Step.accepted came one_accepted.server one_accepted.master (omega arith) accepts))
      (Step.passed 0 pass 7 3 there holder (Memᴰ.tail (Memᴰ.head refl)) refl refl refl passes)

Reach-Arrives_example : Arrives one_placed 1 0 1 4096
Reach-Arrives_example =
    Reach-Arrives rings 2 5 one_placed one_placed-Reach rings-Distinct 1 0 1 4096
      (new_tcp_connection 9 1) refl refl (omega arith) (omega arith)

-- The second session of a user ends the process.
second_session : (add_user_session start.server 4 1 >>= λ s. add_user_session s 4 2) ≡ none
unfolding add_user_session
second_session = refl

-- The connection switches to the documents as user 4.
abbrev as_user : TcpConnection
as_user = record (new_tcp_connection 9 1) { user_id = 4; service_id = service_document }

abbrev served : JdocsServer
served = record one_placed.server {
  user_map = λ u. if 4 == u then some 1 else one_placed.server.user_map u;
}

switches :
    switch_service one_placed.server (new_tcp_connection 9 1) "/document" (some 4)
    ≡ some (served, as_user, true)
unfolding switch_service
switches = refl

abbrev in_service : System
in_service = record (set_worker one_placed 0 (set_connection holder 1 (some as_user))) {
  server = served;
}

in_service-Reach : Reach start in_service
in_service-Reach = Reach.next one_placed-Reach (
    Step.upgrading 0 1 (new_tcp_connection 9 1) as_user "/document" (some 4) served refl refl refl
      switches)

abbrev no_text : SenderMessage → List ℕ
no_text m = []

abbrev greeting : ChatMessage
greeting = record { user_id = 4; message = "hi" }

Reach-Reaches_example : Reaches no_text "today" in_service 1 (new_tcp_connection 3 2) 4096 greeting
Reach-Reaches_example =
    Reach-Reaches no_text "today" rings 2 5 in_service in_service-Reach rings-Distinct 1
      (new_tcp_connection 3 2) 4096 greeting 1 refl refl (omega arith) (omega arith)
