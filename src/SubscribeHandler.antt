-- ===== src/SubscribeHandler.antt =====
-- NngIpcSubscribeHandler.cpp and .h: the receiving side of publish and subscribe. Each method holds
-- the handler's mutex.
pub mod Indices
pub mod Topics
use ipc_with_cht.Prelude.{
  ℕ, ◌+◌, ◌%◌, Bool, true, false, Option, none, some, List, [], ◌∷◌, get_elem?, is_empty,
  if◌then◌else◌,
}
use ipc_with_cht.Prelude.Bytes.{Bytes}
use ipc_with_cht.Nng.{
  Nng, Log, record_call, succeeds, socket_open, socket_close, dial, socket_subscribe,
  socket_unsubscribe, ctx_subscribe, ctx_unsubscribe,
}
use ipc_with_cht.AioWorker.{AioWorker, subscribe as subscribes}
use ipc_with_cht.RequestHandler.{ipc_url}
use ipc_with_cht.WorkerPool.{
  create_workers, start_workers, stop_workers, stop_calls, clear_calls, clamp_workers,
}

pub record SubscribeHandler : Type 0 where
  pub ipc_name : Bytes
  pub is_open : Bool
  pub init_done : Bool
  pub worker_num : ℕ
  pub workers : List AioWorker
  pub subscribe_idx : ℕ

-- gc_maxWorkerNum.
abbrev pub max_worker_num : ℕ
max_worker_num = 1

new : Bytes → ℕ → SubscribeHandler
new name n = record {
  ipc_name = name;
  is_open = false;
  init_done = false;
  worker_num = n;
  workers = [];
  subscribe_idx = 0;
}

-- The run of `mkdir -p` is left out: its result is dropped.
unfoldable pub init : Nng → SubscribeHandler → Log → Bool × SubscribeHandler × Log
init nng h log =
    let opened = record_call nng socket_open log in
    let (ws, log') = create_workers nng subscribes h.worker_num opened in
    if succeeds nng socket_open log
    then (true, record h { is_open = true; init_done = true; workers = ws }, log')
    else (false, h, opened)

-- `none` is the access to `m_workers` out of range. The result of the worker's own `subscribe` is
-- dropped.
unfoldable pub subscribe :
    Nng → Bytes → SubscribeHandler → Log → Option (Bool × SubscribeHandler × Log)
subscribe nng topic h log =
    let asked = record_call nng (socket_subscribe topic) log in
    let next = (h.subscribe_idx + 1) % h.worker_num in
    if h.init_done
    then (if succeeds nng (socket_subscribe topic) log
        then elim (get_elem? h.workers h.subscribe_idx) [
          | none ↦ none
          | some w ↦
              some (
                true,
                record h { subscribe_idx = next },
                record_call nng (ctx_subscribe topic) asked,
              )
        ]
        else some (false, h, asked))
    else some (false, h, log)

-- `AioWorker::unsubscribe`: the empty topic is passed over.
unsubscribe_worker : Nng → Bytes → Log → Log
unsubscribe_worker nng topic log =
    if is_empty topic then log else record_call nng (ctx_unsubscribe topic) log

unsubscribe_workers : Nng → Bytes → List AioWorker → Log → Log
unfolding unsubscribe_worker
unsubscribe_workers nng topic [] log = log
unsubscribe_workers nng topic (w ∷ ws) log =
    unsubscribe_workers nng topic ws (unsubscribe_worker nng topic log)

unfoldable pub unsubscribe : Nng → Bytes → SubscribeHandler → Log → Bool × SubscribeHandler × Log
unfolding unsubscribe_workers
unsubscribe nng topic h log =
    let asked = record_call nng (socket_unsubscribe topic) log in
    if h.init_done
    then (if succeeds nng (socket_unsubscribe topic) log
        then (true, h, unsubscribe_workers nng topic h.workers asked)
        else (false, h, asked))
    else (false, h, log)

-- The handler with its workers started.
with_started :
    SubscribeHandler → Log → Option (List AioWorker) → Option (Bool × SubscribeHandler × Log)
with_started h log none = none
with_started h log (some ws) = some (true, record h { workers = ws }, log)

-- `none` is the start of a worker that was started before.
unfoldable pub start : Nng → Bytes → SubscribeHandler → Log → Option (Bool × SubscribeHandler × Log)
unfolding with_started
start nng dir h log =
    let url = ipc_url dir h.ipc_name in
    let dialed = record_call nng (dial url) log in
    if h.init_done
    then (if succeeds nng (dial url) log
        then with_started h dialed (start_workers h.workers)
        else some (false, h, dialed))
    else some (false, h, log)

unfoldable pub stop : Nng → SubscribeHandler → Log → Bool × SubscribeHandler × Log
stop nng h log = (true, record h { workers = stop_workers h.workers }, stop_calls nng h.workers log)

unfoldable pub release : Nng → SubscribeHandler → Log → Bool × SubscribeHandler × Log
release nng h log = (
  true,
  record h { is_open = false; init_done = false; workers = [] },
  record_call nng socket_close (clear_calls nng h.workers log),
)

-- A handler; or null, after the destructor has stopped and released what `init` had made.
unfoldable pub create : Nng → Option Bytes → ℕ → Log → Option SubscribeHandler × Log
unfolding new init stop release
create nng none n log = (none, log)
create nng (some []) n log = (none, log)
create nng (some (b ∷ bs)) n log =
    let (done, h, log') = init nng (new (b ∷ bs) (clamp_workers max_worker_num n)) log in
    let (_, h', log'') = stop nng h log' in
    if done then (some h, log') else (none, (release nng h' log'').2)
