-- ===== src/Event/Handle/Listening.antt =====
-- Starting and stopping to listen, in zwsystem_ipc_event.cpp.
use ipc_with_cht.Prelude.{
  ℕ, zero, suc, ◌≡◌, ◌≢◌, refl, sym, subst, Bool, true, false, Option-cases, if◌then◌else◌, Option,
  none, some, [], ◌∷◌, arith, ◌⊎◌, inl, inr,
}
use ipc_with_cht.Prelude.Bytes.{Bytes}
use ipc_with_cht.Nng.{Nng, Log, socket_open, record_call}
use ipc_with_cht.AioWorker.{State, init, recv, subscribe as subscribes}
use ipc_with_cht.WorkerPool.{clamp_workers}
use ipc_with_cht.WorkerPool.Sizes.{AllIn, create_workers-AllIn, start_workers-fresh}
use ipc_with_cht.SubscribeHandler.{SubscribeHandler, max_worker_num, create, start}
use ipc_with_cht.Event.Handle.{
  EventHandle, Build, after_start, start_listen, stop_listen, is_there, listen_with,
}

-- A subscriber whose workers are in the state.
abbrev pub InState : State → Option SubscribeHandler → Type 0
InState st none = Unit {0}
InState st (some s) = AllIn st s.workers × (s.init_done ≡ true)

create-InState :
    (nng : Nng) (name : Option Bytes) (n : ℕ) (log : Log) → InState init (create nng name n log).0
unfolding create
create-InState nng none n log = tt
create-InState nng (some []) n log = tt
create-InState nng (some (b ∷ bs)) n log =
    let k = clamp_workers max_worker_num n in
    let opened = record_call nng socket_open log in
    ground (arith, create_workers-AllIn nng subscribes k opened)

-- A run that is defined, and what it leaves.
abbrev pub Defined : {A : Type 0} → (A → Type 0) → Option A → Type 0
Defined P none = ⊥
Defined P (some r) = P r

-- What the start of a subscriber leaves if it succeeds.
abbrev Starts : Bool × SubscribeHandler × Log → Type 0
Starts (true, s, log) = InState recv (some s)
Starts (false, s, log) = Unit

start-Starts :
    (nng : Nng) (dir : Bytes) (s : SubscribeHandler) (log : Log)
    → AllIn init s.workers
    → s.init_done ≡ true
    → Defined Starts (start nng dir s log)
unfolding start
start-Starts nng dir s log fresh done =
    let (ws, e, in_recv, same) = start_workers-fresh s.workers fresh in ground (arith, e, in_recv)

-- What a call to listen leaves: on success a subscriber whose workers are receiving, on a failure
-- to make or to start it none, and where there was one already just that.
abbrev pub Listens : EventHandle → ℕ × EventHandle × Log → Type 0
Listens e (zero, e', log) = (e.sub_sp ≡ none) × (e'.sub_sp ≢ none) × InState recv e'.sub_sp
Listens e (suc rc, e', log) = (e' ≡ e) ⊎ (e'.sub_sp ≡ none)

after_start-Listens :
    (nng : Nng) (e : EventHandle) (r : Option (Bool × SubscribeHandler × Log))
    → e.sub_sp ≡ none
    → Defined Starts r
    → Defined (Listens e) (after_start nng e r)
unfolding after_start
after_start-Listens nng e none h i = i
after_start-Listens nng e (some (true, s, log)) h i = (h, ground arith, i)
after_start-Listens nng e (some (false, s, log)) h i = inr refl

listen_with-Listens :
    (nng : Nng) (b : Build) (e : EventHandle) (made : Option SubscribeHandler × Log)
    → e.sub_sp ≡ none
    → InState init made.0
    → Defined (Listens e) (listen_with nng b e made)
unfolding listen_with
listen_with-Listens nng b e (none, log) h i = inr refl
listen_with-Listens nng b e (some s, log) h i =
    after_start-Listens nng e (start nng b.dir s log) h (start-Starts nng b.dir s log i.0 i.1)

-- A call to listen starts no worker twice. One that returns 0 has made a subscriber, where there was
-- none, whose workers all receive. One that fails leaves the handle as it was, or without a
-- subscriber.
pub start_listen-Listens :
    (nng : Nng) (b : Build) (has_callback : Bool) (n : ℕ) (e : EventHandle) (log : Log)
    → Defined (Listens e) (start_listen nng b has_callback n e log)
unfolding start_listen
start_listen-Listens nng b false n e log = inl refl
start_listen-Listens nng b true n e log = elim (Option-cases e.sub_sp) [
  | inl h ↦
      subst
        (λ o.
          let r : Option (ℕ × EventHandle × Log) = elim o [
            | some s ↦ some (2, e, log)
            | none ↦ listen_with nng b e (create nng (some b.subscribe_name) n log)
          ] in
          Defined (Listens e) r)
        (sym h)
        (listen_with-Listens nng b e (create nng (some b.subscribe_name) n log) h
          (create-InState nng (some b.subscribe_name) n log))
  | inr (s, h) ↦
      subst
        (λ o.
          let r : Option (ℕ × EventHandle × Log) = elim o [
            | some s ↦ some (2, e, log)
            | none ↦ listen_with nng b e (create nng (some b.subscribe_name) n log)
          ] in
          Defined (Listens e) r)
        (sym h) (inl refl)
]

-- A handle that listens cannot be brought to stop: after a call to listen that succeeded, a call to
-- stop listening fails with -2 and makes no call, the workers of the subscriber go on receiving, and
-- any further call to listen fails with -2 (or -1 without a callback).
pub listening_goes_on :
    (nng : Nng) (b : Build) (has_callback again : Bool) (n m : ℕ) (e e' : EventHandle)
    (log log' : Log)
    → start_listen nng b has_callback n e log ≡ some (0, e', log')
    → (stop_listen nng e' log' ≡ (2, e', log'))
      × InState recv e'.sub_sp
      × (start_listen nng b again m (stop_listen nng e' log').1 (stop_listen nng e' log').2
          ≡ some ((if again then 2 else 1), e', log'))
unfolding stop_listen start_listen is_there
listening_goes_on nng b has_callback again n m e e' log log' h =
    let left = subst (Defined (Listens e)) h (start_listen-Listens nng b has_callback n e log) in
    elim (Option-cases e'.sub_sp) [
      | inl g ↦ absurd (left.1 g)
      | inr (s, g) ↦ (ground (arith, g), left.2, ground (arith, g))
    ]
