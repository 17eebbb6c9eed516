-- ===== src/AioWorker/System.antt =====
-- A worker of NngIpcAioWorker.cpp together with its asynchronous operation and the environment
-- that completes it. A completion runs `process` whole; the read of `m_stopping` in it is one.
use ipc_with_cht.Prelude.{ℕ, suc, ◌+◌, ◌≡◌, true, false, Option, none, some, ◌==◌, if◌then◌else◌}
use ipc_with_cht.Prelude.Bytes.{Bytes}
use ipc_with_cht.AioWorker.{
  AioWorker, Kind, count_msg, init, Callback, Completion, Pending, unstarted, receiving, sleeping,
  sending, Turn, process, stop,
}

-- The counts are of the messages that a receive handed over, of those that a send took, and of the
-- calls of `nng_msg_free`.
pub record System : Type 0 where
  pub worker : AioWorker
  pub pending : Pending
  pub received : ℕ
  pub sent : ℕ
  pub freed : ℕ

-- A worker as `create` hands it out.
unfoldable pub start_of : Kind → System
start_of kind = record {
  worker = record { kind = kind; state = init; stopping = false; has_aio = true };
  pending = unstarted;
  received = 0;
  sent = 0;
  freed = 0;
}

-- The completions of each operation. A message comes with a receive that succeeds, and is left with
-- the caller by a send that fails. What else `nng_aio_get_msg` finds NNG does not say: with every
-- other completion it may be null or any message, such as one that the worker has freed. The first
-- run of `process` is the call in `start`, before any operation.
pub data Completes : Pending → Completion → Type 0 where
  started : Completes unstarted (record { result = 0; msg = none })
  arrived : (m : Bytes) → Completes receiving (record { result = 0; msg = some m })
  not_received :
      (rv : ℕ) (left : Option Bytes) → Completes receiving (record { result = suc rv; msg = left })
  taken :
      {m : Bytes} (left : Option Bytes) → Completes (sending m) (record { result = 0; msg = left })
  not_taken :
      {m : Bytes} (rv : ℕ) → Completes (sending m) (record { result = suc rv; msg = some m })
  slept : (rv : ℕ) (left : Option Bytes) → Completes sleeping (record { result = rv; msg = left })

-- What a completion adds to the counts.
abbrev pub arrivals : Pending → Completion → ℕ
arrivals receiving c = if c.result == 0 then count_msg c.msg else 0
arrivals _ c = 0

abbrev pub departures : Pending → Completion → ℕ
departures (sending m) c = if c.result == 0 then 1 else 0
departures _ c = 0

abbrev pub after : System → Completion → Turn → System
after s c t = record {
  worker = t.worker;
  pending = t.next;
  received = s.received + arrivals s.pending c;
  sent = s.sent + departures s.pending c;
  freed = s.freed + t.freed;
}

-- The steps of a worker on which `start` is called once. NNG does not say what a second `start`
-- finds in an operation that is under way, so there is no step for it.
module _ (cb : Option Callback) where
  pub data Step : System → System → Type 0 where
    completes :
        {s : System} (c : Completion) (append_rv : ℕ) (t : Turn)
        → Completes s.pending c
        → process cb append_rv c s.worker ≡ some t
        → Step s (after s c t)
    stops : {s : System} → Step s (record s { worker = stop s.worker })

  pub data Reach (s : System) : System → Type 0 where
    here : Reach s s
    next : {t u : System} → Reach s t → Step t u → Reach s u
