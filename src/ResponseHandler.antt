-- ===== src/ResponseHandler.antt =====
-- NngIpcResponseHandler.cpp and .h: the server side of request and reply, a socket with a pool of
-- workers. Each method holds the handler's mutex.
pub mod Lifecycle
use ipc_with_cht.Prelude.{ℕ, Bool, true, false, Option, none, some, List, [], ◌∷◌, if◌then◌else◌}
use ipc_with_cht.Prelude.Bytes.{Bytes}
use ipc_with_cht.Nng.{Nng, Log, record_call, succeeds, socket_open, socket_close, listen}
use ipc_with_cht.AioWorker.{AioWorker, response}
use ipc_with_cht.RequestHandler.{ipc_url}
use ipc_with_cht.WorkerPool.{
  create_workers, start_workers, stop_workers, stop_calls, clear_calls, clamp_workers,
}

pub record ResponseHandler : Type 0 where
  pub ipc_name : Bytes
  pub is_open : Bool
  pub init_done : Bool
  pub worker_num : ℕ
  pub workers : List AioWorker

-- gc_maxWorkerNum.
abbrev pub max_worker_num : ℕ
max_worker_num = 8

new : Bytes → ℕ → ResponseHandler
new name n = record {
  ipc_name = name;
  is_open = false;
  init_done = false;
  worker_num = n;
  workers = [];
}

-- The run of `mkdir -p` is left out: its result is dropped.
unfoldable pub init : Nng → ResponseHandler → Log → Bool × ResponseHandler × Log
init nng h log =
    let opened = record_call nng socket_open log in
    let (ws, log') = create_workers nng response h.worker_num opened in
    if succeeds nng socket_open log
    then (true, record h { is_open = true; init_done = true; workers = ws }, log')
    else (false, h, opened)

-- The handler with its workers started.
with_started :
    ResponseHandler → Log → Option (List AioWorker) → Option (Bool × ResponseHandler × Log)
with_started h log none = none
with_started h log (some ws) = some (true, record h { workers = ws }, log)

-- `none` is the start of a worker that was started before.
unfoldable pub start : Nng → Bytes → ResponseHandler → Log → Option (Bool × ResponseHandler × Log)
unfolding with_started
start nng dir h log =
    let url = ipc_url dir h.ipc_name in
    let listening = record_call nng (listen url) log in
    if h.init_done
    then (if succeeds nng (listen url) log
        then with_started h listening (start_workers h.workers)
        else some (false, h, listening))
    else some (false, h, log)

unfoldable pub stop : Nng → ResponseHandler → Log → Bool × ResponseHandler × Log
stop nng h log = (true, record h { workers = stop_workers h.workers }, stop_calls nng h.workers log)

unfoldable pub release : Nng → ResponseHandler → Log → Bool × ResponseHandler × Log
release nng h log = (
  true,
  record h { is_open = false; init_done = false; workers = [] },
  record_call nng socket_close (clear_calls nng h.workers log),
)

-- A handler; or null, after the destructor has stopped and released what `init` had made.
unfoldable pub create : Nng → Option Bytes → ℕ → Log → Option ResponseHandler × Log
unfolding new init stop release
create nng none n log = (none, log)
create nng (some []) n log = (none, log)
create nng (some (b ∷ bs)) n log =
    let (done, h, log') = init nng (new (b ∷ bs) (clamp_workers max_worker_num n)) log in
    let (_, h', log'') = stop nng h log' in
    if done then (some h, log') else (none, (release nng h' log'').2)
