-- ===== src/AioWorker.antt =====
-- NngIpcAioWorker.cpp and .h: the worker that receives, calls back and replies, driven by the
-- completions of one asynchronous operation.
pub mod System
pub mod Safety
pub mod Messages
pub mod Replies
use ipc_with_cht.Prelude.{
  ℕ, Bool, true, false, Option, none, some, [], ◌∷◌, ◌==◌, ◌||◌, if◌then◌else◌,
}
use ipc_with_cht.Prelude.Bytes.{Bytes}
use ipc_with_cht.Nng.{nng_eclosed, nng_ecanceled}

pub data State : Type 0 where
  init recv send error : State

pub data Kind : Type 0 where
  response subscribe : Kind

-- `has_aio` says whether `m_aio` is set.
pub record AioWorker : Type 0 where
  pub kind : Kind
  pub state : State
  pub stopping : Bool
  pub has_aio : Bool

-- The client's `OutputCallback`: the reply that it allocates for a request. `none` is a null
-- pointer, and `some []` a reply of length 0.
abbrev pub Callback : Type 0
Callback = Bytes → Option Bytes

-- What `process` finds in `m_aio`: `nng_aio_result` and `nng_aio_get_msg`.
pub record Completion : Type 0 where
  pub result : ℕ
  pub msg : Option Bytes

-- The operation that is under way in `m_aio`.
pub data Pending : Type 0 where
  unstarted receiving sleeping finished : Pending
  sending : Bytes → Pending

-- What one run of `process` does: the new worker, the operation that it starts (`finished` if
-- none), and the number of messages that it frees.
pub record Turn : Type 0 where
  pub worker : AioWorker
  pub next : Pending
  pub freed : ℕ

abbrev pub turn : AioWorker → State → Pending → ℕ → Turn
turn w state next freed = record { worker = record w { state = state }; next = next; freed = freed }

abbrev pub count_msg : Option Bytes → ℕ
count_msg none = 0
count_msg (some m) = 1

-- `if (m_cb)`; the callback is asked for a reply.
abbrev pub ask : Option Callback → Bytes → Option Bytes
ask none request = none
ask (some cb) request = cb request

-- The end of `case RECV`: `append_rv` is the result of `nng_msg_append` on the cleared message.
answer : Option Bytes → ℕ → AioWorker → Turn
answer none append_rv w = turn w recv receiving 0
answer (some []) append_rv w = turn w recv receiving 0
answer (some (b ∷ bs)) append_rv w =
    if append_rv == 0 then turn w send (sending (b ∷ bs)) 0 else turn w error sleeping 1

-- The `switch`. `none` is the read of the body of a null message.
dispatch : State → Option Callback → Option Bytes → ℕ → AioWorker → Option Turn
unfolding answer
dispatch init cb msg append_rv w = some (turn w recv receiving 0)
dispatch recv cb none append_rv w = none
dispatch recv cb (some request) append_rv w = some (answer (ask cb request) append_rv w)
dispatch send cb msg append_rv w = some (turn w recv receiving 0)
dispatch error cb msg append_rv w = some (turn w recv receiving 0)

-- What is freed on a failed operation that is tried again: the message that could not be sent.
abbrev unsent : State → Option Bytes → ℕ
unsent send msg = count_msg msg
unsent _ msg = 0

unfoldable pub process : Option Callback → ℕ → Completion → AioWorker → Option Turn
unfolding dispatch
process cb append_rv c w =
    if w.has_aio
    then (if c.result == nng_ecanceled || c.result == nng_eclosed || w.stopping
        then some (turn w w.state finished (count_msg c.msg))
        else (if c.result == 0
            then dispatch w.state cb c.msg append_rv w
            else some (turn w error sleeping (unsent w.state c.msg))))
    else some (turn w w.state finished 0)

unfoldable pub stop : AioWorker → AioWorker
stop w = record w { stopping = true }
