-- ===== src/AioWorker/Replies.antt =====
-- What a worker sends.
use ipc_with_cht.Prelude.{ℕ, ◌≡◌, refl, true, false, Option, some, arith}
use ipc_with_cht.Prelude.Bytes.{Bytes}
use ipc_with_cht.AioWorker.{
  AioWorker, Kind, Callback, Completion, Pending, receiving, sending, Turn, process, ask,
}
use ipc_with_cht.AioWorker.System.{
  System, start_of, Completes, started, arrived, not_received, taken, not_taken, slept, Reach,
}
use ipc_with_cht.AioWorker.Safety.{Fits, Reach-IsSound, start_of-IsSound}

-- The message `m` is the callback's reply to the request that has just come.
abbrev pub AnswersTo : Option Callback → Bytes → Pending → Completion → Type 0
AnswersTo cb m p c =
    (p ≡ receiving) × (c.result ≡ 0) × ((q : Bytes) × (c.msg ≡ some q) × (ask cb q ≡ some m))

process-AnswersTo :
    (cb : Option Callback) (append_rv : ℕ) (w : AioWorker) (p : Pending) (c : Completion) (t : Turn)
    (m : Bytes)
    → w.has_aio ≡ true
    → Fits w.state p
    → Completes p c
    → process cb append_rv c w ≡ some t
    → t.next ≡ sending m
    → (w.stopping ≡ false) × AnswersTo cb m p c
unfolding process
process-AnswersTo cb append_rv w p c t m h f started e n = ground arith
process-AnswersTo cb append_rv w p c t m h f (arrived q) e n =
    (ground arith, (refl, refl, (q, refl, ground arith)))
process-AnswersTo cb append_rv w p c t m h f (not_received rv left) e n = ground arith
process-AnswersTo cb append_rv w p c t m h f (taken left) e n = ground arith
process-AnswersTo cb append_rv w p c t m h f (not_taken rv) e n = ground arith
process-AnswersTo cb append_rv w p c t m h f (slept rv left) e n = ground arith

-- A worker starts to send only on the receipt of a request, while it is not stopped, and what it
-- sends is the callback's reply to that request: never a second reply, nor one to another request.
pub process_answers :
    (cb : Option Callback) (kind : Kind) (s : System) (c : Completion) (append_rv : ℕ) (t : Turn)
    (m : Bytes)
    → Reach cb (start_of kind) s
    → Completes s.pending c
    → process cb append_rv c s.worker ≡ some t
    → t.next ≡ sending m
    → (s.worker.stopping ≡ false) × AnswersTo cb m s.pending c
process_answers cb kind s c append_rv t m r done e n =
    let v = Reach-IsSound cb r (start_of-IsSound kind) in
    process-AnswersTo cb append_rv s.worker s.pending c t m v.has_aio v.fits done e n
