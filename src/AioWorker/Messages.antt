-- ===== src/AioWorker/Messages.antt =====
-- Where the messages that a worker receives end: sent, freed, on the way out, or dropped.
use ipc_with_cht.Prelude.{
  ℕ, ◌+◌, ◌≡◌, ◌≢◌, ◌==◌, if◌then◌else◌, refl, Bool, true, false, Option, none, some, [], ◌∷◌,
  arith,
}
use ipc_with_cht.Prelude.Bytes.{Bytes}
use ipc_with_cht.AioWorker.{
  AioWorker, Kind, Callback, Completion, Pending, receiving, finished, sending, Turn, process, stop,
  ask,
}
use ipc_with_cht.AioWorker.System.{
  System, start_of, Completes, started, arrived, not_received, taken, not_taken, slept, completes,
  stops, Reach, here, next, arrivals, departures,
}
use ipc_with_cht.AioWorker.Safety.{Fits, IsSound, Reach-IsSound, start_of-IsSound}

abbrev pub in_flight : Pending → ℕ
in_flight (sending m) = 1
in_flight _ = 0

-- 1 where a reply is null or empty.
abbrev pub no_reply : Option Bytes → ℕ
no_reply none = 1
no_reply (some []) = 1
no_reply (some (b ∷ bs)) = 0

-- 1 for a message that arrives while the worker runs and is not replied to.
abbrev pub unanswered : Option Callback → Bool → Pending → Completion → ℕ
unanswered cb false receiving c = elim c.msg [
  | none ↦ 0
  | some m ↦ if c.result == 0 then no_reply (ask cb m) else 0
]
unanswered cb _ _ c = 0

process_counts :
    (cb : Option Callback) (append_rv : ℕ) (w : AioWorker) (p : Pending) (c : Completion) (t : Turn)
    → w.has_aio ≡ true
    → Fits w.state p
    → Completes p c
    → process cb append_rv c w ≡ some t
    → t.next ≢ finished
    → arrivals p c + in_flight p
      ≡ departures p c + t.freed + in_flight t.next + unanswered cb w.stopping p c
unfolding process
process_counts cb append_rv w p c t h f started e n = ground arith
process_counts cb append_rv w p c t h f (arrived m) e n = ground arith
process_counts cb append_rv w p c t h f (not_received rv left) e n = ground arith
process_counts cb append_rv w p c t h f (taken left) e n = ground arith
process_counts cb append_rv w p c t h f (not_taken rv) e n = ground arith
process_counts cb append_rv w p c t h f (slept rv left) e n = ground arith

-- An operation that completes is under way.
is_under_way : (p : Pending) (c : Completion) → Completes p c → p ≢ finished
is_under_way p c started n = ground arith
is_under_way p c (arrived m) n = ground arith
is_under_way p c (not_received rv left) n = ground arith
is_under_way p c (taken left) n = ground arith
is_under_way p c (not_taken rv) n = ground arith
is_under_way p c (slept rv left) n = ground arith

module _ (cb : Option Callback) where
  -- The messages that were dropped along the way: cleared, and neither freed nor sent.
  unfoldable pub dropped : {s u : System} → Reach cb s u → ℕ
  dropped here = 0
  dropped (next r (completes {s} c append_rv t done e)) =
      unanswered cb s.worker.stopping s.pending c + dropped r
  dropped (next r stops) = dropped r

  abbrev pub Conserved : System → ℕ → Type 0
  Conserved s lost = s.received ≡ s.sent + s.freed + in_flight s.pending + lost

  conserved :
      {s u : System} (r : Reach cb s u)
      → IsSound s
      → u.pending ≢ finished
      → Conserved s 0
      → Conserved u (dropped r)
  unfolding dropped
  conserved here v n h = h
  conserved (next r (completes {s} c append_rv t done e)) v n h =
      let w = Reach-IsSound cb r v in
      omega (
        arith,
        process_counts cb append_rv s.worker s.pending c t w.has_aio w.fits done e n,
        conserved r v (is_under_way s.pending c done) h,
      )
  conserved (next r stops) v n h = conserved r v n h

  -- As long as the work of a worker that was started once is not over, stopped or not: every message
  -- that it received is sent as a reply, freed, on its way out, or one of those that were dropped for
  -- want of a reply; none is counted twice.
  pub messages_conserved :
      (kind : Kind) (s : System) (r : Reach cb (start_of kind) s)
      → s.pending ≢ finished
      → s.received ≡ s.sent + s.freed + in_flight s.pending + dropped r
  unfolding start_of
  messages_conserved kind s r n = conserved r (start_of-IsSound kind) n (omega arith)

abbrev pub IsSilent : Option Callback → Type 0
IsSilent cb = (m : Bytes) → no_reply (ask cb m) ≡ 1

-- Nothing was sent or freed, and nothing is about to be.
abbrev Keeps : System → Type 0
Keeps s = (s.sent ≡ 0) × (s.freed ≡ 0) × (in_flight s.pending ≡ 0)

process_keeps :
    (cb : Option Callback) (append_rv : ℕ) (w : AioWorker) (p : Pending) (c : Completion) (t : Turn)
    → IsSilent cb
    → w.has_aio ≡ true
    → in_flight p ≡ 0
    → Fits w.state p
    → Completes p c
    → process cb append_rv c w ≡ some t
    → t.next ≢ finished
    → (departures p c ≡ 0) × (t.freed ≡ 0) × (in_flight t.next ≡ 0)
unfolding process
process_keeps cb append_rv w p c t q h z f started e n = ground arith
process_keeps cb append_rv w p c t q h z f (arrived m) e n = let q' = q m in ground arith
process_keeps cb append_rv w p c t q h z f (not_received rv left) e n = ground arith
process_keeps cb append_rv w p c t q h z f (taken left) e n = ground arith
process_keeps cb append_rv w p c t q h z f (not_taken rv) e n = ground arith
process_keeps cb append_rv w p c t q h z f (slept rv left) e n = ground arith

module _ (cb : Option Callback) (silent : IsSilent cb) where
  Reach-Keeps :
      {s u : System} (r : Reach cb s u) → IsSound s → Keeps s → u.pending ≢ finished → Keeps u
  unfolding stop
  Reach-Keeps here v h n = h
  Reach-Keeps (next r (completes {s} c append_rv t done e)) v h n =
      let w = Reach-IsSound cb r v in
      let before = Reach-Keeps r v h (is_under_way s.pending c done) in
      let turned =
        process_keeps cb append_rv s.worker s.pending c t silent w.has_aio before.2 w.fits done e
          n in
      omega (arith, before, turned)
  Reach-Keeps (next r stops) v h n = Reach-Keeps r v h n

  -- A worker that was started once and whose callback never replies, as that of a subscriber, sends
  -- and frees nothing as long as its work is not over, stopped or not: every message that it has
  -- received is dropped.
  pub silent_worker_drops :
      (kind : Kind) (s : System) (r : Reach cb (start_of kind) s)
      → s.pending ≢ finished
      → (s.sent ≡ 0) × (s.freed ≡ 0) × (s.received ≡ dropped cb r)
  unfolding start_of
  silent_worker_drops kind s r n =
      let keeps = Reach-Keeps r (start_of-IsSound kind) (refl, refl, refl) n in
      omega (arith, keeps, messages_conserved cb kind s r n)
