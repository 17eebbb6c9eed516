-- ===== src/AioWorker/Safety.antt =====
-- A worker's state and its operation fit together, so `process` never reads a missing message, and
-- only a stop ends the work.
use ipc_with_cht.Prelude.{ℕ, ◌≡◌, ◌≢◌, refl, subst, true, false, Option, none, some, arith}
use ipc_with_cht.Nng.{nng_eclosed, nng_ecanceled}
use ipc_with_cht.AioWorker.{
  AioWorker, Kind, State, init, recv, send, error, Callback, Completion, Pending, unstarted,
  receiving, sleeping, finished, sending, Turn, process, stop,
}
use ipc_with_cht.AioWorker.System.{
  System, start_of, Completes, started, arrived, not_received, taken, not_taken, slept, Step,
  completes, stops, Reach, here, next,
}

-- The states in which `process` may find the operation completed.
abbrev pub Fits : State → Pending → Type 0
Fits init unstarted = Unit {0}
Fits recv receiving = Unit {0}
Fits send (sending m) = Unit {0}
Fits error sleeping = Unit {0}
Fits _ finished = Unit {0}
Fits _ _ = ⊥

pub record IsSound (s : System) : Type 0 where
  pub has_aio : s.worker.has_aio ≡ true
  pub fits : Fits s.worker.state s.pending

-- One run of `process` is defined, and what it leaves fits again.
abbrev pub Runs : Option Turn → Type 0
Runs none = ⊥
Runs (some t) = (t.worker.has_aio ≡ true) × Fits t.worker.state t.next

process-Runs :
    (cb : Option Callback) (append_rv : ℕ) (w : AioWorker) (p : Pending) (c : Completion)
    → w.has_aio ≡ true
    → Fits w.state p
    → Completes p c
    → Runs (process cb append_rv c w)
unfolding process
process-Runs cb append_rv w p c h f started = ground arith
process-Runs cb append_rv w p c h f (arrived m) = ground arith
process-Runs cb append_rv w p c h f (not_received rv left) = ground arith
process-Runs cb append_rv w p c h f (taken left) = ground arith
process-Runs cb append_rv w p c h f (not_taken rv) = ground arith
process-Runs cb append_rv w p c h f (slept rv left) = ground arith

pub start_of-IsSound : (kind : Kind) → IsSound (start_of kind)
unfolding start_of
start_of-IsSound kind = record { has_aio = refl; fits = tt }

-- What a run that gave `t` leaves.
turn-Runs : (r : Option Turn) (t : Turn) → r ≡ some t → Runs r → Runs (some t)
turn-Runs r t e h = subst Runs e h

module _ (cb : Option Callback) where
  Step-IsSound : {s u : System} → Step cb s u → IsSound s → IsSound u
  unfolding stop
  Step-IsSound (completes {s} c append_rv t done e) v =
      let runs = process-Runs cb append_rv s.worker s.pending c v.has_aio v.fits done in
      let (aio, fits) = turn-Runs (process cb append_rv c s.worker) t e runs in
      record { has_aio = aio; fits = fits }
  Step-IsSound stops v = record { has_aio = v.has_aio; fits = v.fits }

  pub Reach-IsSound : {s u : System} → Reach cb s u → IsSound s → IsSound u
  Reach-IsSound here v = v
  Reach-IsSound (next r st) v = Step-IsSound st (Reach-IsSound r v)

  some-Runs : (r : Option Turn) → Runs r → (t : Turn) × (r ≡ some t)
  some-Runs none h = absurd h
  some-Runs (some t) h = (t, refl)

  -- Whatever has happened to a worker on which `start` was called once, stops and failures included,
  -- and whatever message NNG leaves in its operation: `process` handles the next completion, and
  -- never reads the body of a message that is not there.
  pub process_defined :
      (kind : Kind) (s : System) (c : Completion) (append_rv : ℕ)
      → Reach cb (start_of kind) s
      → Completes s.pending c
      → (t : Turn) × (process cb append_rv c s.worker ≡ some t)
  process_defined kind s c append_rv r done =
      let v = Reach-IsSound r (start_of-IsSound kind) in
      some-Runs (process cb append_rv c s.worker)
        (process-Runs cb append_rv s.worker s.pending c v.has_aio v.fits done)

  goes_on :
      (append_rv : ℕ) (w : AioWorker) (p : Pending) (c : Completion) (t : Turn)
      → w.has_aio ≡ true
      → w.stopping ≡ false
      → c.result ≢ nng_ecanceled
      → c.result ≢ nng_eclosed
      → Fits w.state p
      → Completes p c
      → process cb append_rv c w ≡ some t
      → t.next ≢ finished
  unfolding process
  goes_on append_rv w p c t h k a b f started e = ground arith
  goes_on append_rv w p c t h k a b f (arrived m) e = ground arith
  goes_on append_rv w p c t h k a b f (not_received rv left) e = ground arith
  goes_on append_rv w p c t h k a b f (taken left) e = ground arith
  goes_on append_rv w p c t h k a b f (not_taken rv) e = ground arith
  goes_on append_rv w p c t h k a b f (slept rv left) e = ground arith

  -- A worker that is not stopped, and whose operation was neither cancelled nor closed, always
  -- starts its next operation: no error ends its work.
  pub process_goes_on :
      (kind : Kind) (s : System) (c : Completion) (append_rv : ℕ) (t : Turn)
      → Reach cb (start_of kind) s
      → s.worker.stopping ≡ false
      → c.result ≢ nng_ecanceled
      → c.result ≢ nng_eclosed
      → Completes s.pending c
      → process cb append_rv c s.worker ≡ some t
      → t.next ≢ finished
  process_goes_on kind s c append_rv t r k a b done e =
      let v = Reach-IsSound r (start_of-IsSound kind) in
      goes_on append_rv s.worker s.pending c t v.has_aio k a b v.fits done e
