-- ===== src/SubscribeHandler/Indices.antt =====
-- The round robin of `subscribe` over the workers, and its accesses to the worker list.
use ipc_with_cht.Prelude.{
  ℕ, ◌<◌, ◌≤◌, ◌≡◌, ◌≢◌, Bool, Option, none, some, [], ◌∷◌, arith, length, get_elem?-some,
}
use ipc_with_cht.Prelude.Bytes.{Bytes}
use ipc_with_cht.Nng.{Nng, Log, record_call, socket_open, socket_subscribe, aio_alloc}
use ipc_with_cht.AioWorker.{subscribe as subscribes}
use ipc_with_cht.WorkerPool.{create_workers, create_worker, clamp_workers}
use ipc_with_cht.WorkerPool.Sizes.{clamp_workers_bounds, length-create_workers_all, Grants}
use ipc_with_cht.SubscribeHandler.{SubscribeHandler, max_worker_num, create, subscribe}

-- Every worker that was asked for is there, and the next index is one of theirs.
pub record IsComplete (h : SubscribeHandler) : Type 0 where
  pub all : length h.workers ≡ h.worker_num
  pub some_worker : 1 ≤ h.worker_num
  pub in_range : h.subscribe_idx < h.worker_num

-- Where the contexts of all workers can be made, `create` gives a handler that is complete.
pub create-IsComplete :
    (nng : Nng) (name : Option Bytes) (n : ℕ) (log : Log) (h : SubscribeHandler)
    → Grants nng
    → (create nng name n log).0 ≡ some h
    → IsComplete h
unfolding create
create-IsComplete nng none n log h g e = cc
create-IsComplete nng (some []) n log h g e = cc
create-IsComplete nng (some (b ∷ bs)) n log h g e =
    let k = clamp_workers max_worker_num n in
    let opened = record_call nng socket_open log in
    let made = length-create_workers_all nng subscribes k opened g in
    ground (arith, clamp_workers_bounds max_worker_num n, made)

abbrev pub Gives : (SubscribeHandler → Type 0) → Option (Bool × SubscribeHandler × Log) → Type 0
Gives P none = ⊥
Gives P (some (done, h, log)) = P h

-- On a complete handler `subscribe` stays within the worker list, whatever NNG answers, and leaves
-- the handler complete: so do any number of subscriptions.
pub subscribe-IsComplete :
    (nng : Nng) (topic : Bytes) (h : SubscribeHandler) (log : Log)
    → IsComplete h
    → Gives IsComplete (subscribe nng topic h log)
unfolding subscribe
subscribe-IsComplete nng topic h log v =
    let (w, e) = get_elem?-some h.workers h.subscribe_idx (omega arith) in ground arith

clamp_one : (n : ℕ) → clamp_workers max_worker_num n ≡ 1
clamp_one n = omega (arith, clamp_workers_bounds max_worker_num n)

no_worker :
    (nng : Nng) (log : Log)
    → nng.rv log aio_alloc ≢ 0
    → (create_workers nng subscribes 1 log).0 ≡ []
unfolding create_workers create_worker
no_worker nng log a = ground arith

-- A handler that `create` returns although the operation of its worker could not be allocated has
-- no worker: the first subscription on it that the socket accepts reads the worker list out of
-- range.
pub subscribe_out_of_range :
    (nng : Nng) (name : Option Bytes) (topic : Bytes) (n : ℕ) (log log' : Log)
    (h : SubscribeHandler)
    → nng.rv (record_call nng socket_open log) aio_alloc ≢ 0
    → (create nng name n log).0 ≡ some h
    → nng.rv log' (socket_subscribe topic) ≡ 0
    → subscribe nng topic h log' ≡ none
unfolding create subscribe
subscribe_out_of_range nng none topic n log log' h a e s = cc
subscribe_out_of_range nng (some []) topic n log log' h a e s = cc
subscribe_out_of_range nng (some (b ∷ bs)) topic n log log' h a e s =
    let opened = record_call nng socket_open log in
    ground (arith, clamp_one n, no_worker nng opened a)
