-- ===== src/Examples/Workers.antt =====
-- Workers of NngIpcAioWorker.cpp at concrete requests.
use ipc_with_cht.Prelude.{◌+◌, ◌≡◌, ◌≢◌, refl, true, false, Option, none, some, [], ◌∷◌, arith}
use ipc_with_cht.AioWorker.{
  Callback, Completion, Turn, turn, recv, send, response, receiving, sending, finished, process,
}
use ipc_with_cht.AioWorker.System.{
  System, start_of, started, arrived, after, completes, Reach, here, next,
}
use ipc_with_cht.AioWorker.Safety.{process_defined, process_goes_on}
use ipc_with_cht.AioWorker.Messages.{in_flight, dropped, messages_conserved, silent_worker_drops}
use ipc_with_cht.AioWorker.Replies.{AnswersTo, process_answers}

-- A callback that sends the request back.
abbrev echo : Option Callback
echo = some (λ m. some m)

abbrev no_msg : Completion
no_msg = record { result = 0; msg = none }

abbrev request : Completion
request = record { result = 0; msg = some (7 ∷ 9 ∷ []) }

-- After `start`.
abbrev waiting : System
waiting = record {
  worker = record { kind = response; state = recv; stopping = false; has_aio = true };
  pending = receiving;
  received = 0;
  sent = 0;
  freed = 0;
}

start_turn : Turn
start_turn = turn waiting.worker recv receiving 0

starts :
    (cb : Option Callback)
    → Reach cb (start_of response) (after (start_of response) no_msg start_turn)
unfolding start_of process start_turn
starts cb = next here (completes no_msg 0 start_turn started refl)

process_defined_example : (t : Turn) × (process echo 0 no_msg (start_of response).worker ≡ some t)
unfolding start_of
process_defined_example = process_defined echo response (start_of response) no_msg 0 here started

process_goes_on_example : (turn waiting.worker send (sending (7 ∷ 9 ∷ [])) 0).next ≢ finished
unfolding start_of process start_turn
process_goes_on_example =
    process_goes_on echo response (after (start_of response) no_msg start_turn) request 0
      (turn waiting.worker send (sending (7 ∷ 9 ∷ [])) 0) (starts echo) refl (omega arith)
      (omega arith) (arrived (7 ∷ 9 ∷ [])) refl

process_answers_example :
    (waiting.worker.stopping ≡ false) × AnswersTo echo (7 ∷ 9 ∷ []) receiving request
unfolding start_of process start_turn
process_answers_example =
    process_answers echo response (after (start_of response) no_msg start_turn) request 0
      (turn waiting.worker send (sending (7 ∷ 9 ∷ [])) 0) (7 ∷ 9 ∷ []) (starts echo)
      (arrived (7 ∷ 9 ∷ [])) refl refl

-- A subscriber's worker that has received one message.
silent_turn : Turn
silent_turn = turn waiting.worker recv receiving 0

one_dropped : System
unfolding start_of start_turn silent_turn
one_dropped = after (after (start_of response) no_msg start_turn) request silent_turn

drops_one : Reach none (start_of response) one_dropped
unfolding start_of process start_turn silent_turn one_dropped
drops_one = next (starts none) (completes request 0 silent_turn (arrived (7 ∷ 9 ∷ [])) refl)

messages_conserved_example :
    one_dropped.received
    ≡ one_dropped.sent + one_dropped.freed + in_flight one_dropped.pending + dropped none drops_one
unfolding one_dropped silent_turn
messages_conserved_example = messages_conserved none response one_dropped drops_one (ground arith)

silent_worker_drops_example :
    (one_dropped.sent ≡ 0)
    × (one_dropped.freed ≡ 0)
    × (one_dropped.received ≡ dropped none drops_one)
unfolding one_dropped silent_turn
silent_worker_drops_example =
    silent_worker_drops none (λ m. refl) response one_dropped drops_one (ground arith)
