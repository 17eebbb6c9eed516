-- ===== src/WorkerPool.antt =====
-- The worker lists of NngIpcResponseHandler.cpp and NngIpcSubscribeHandler.cpp, with the creation
-- of a worker in NngIpcAioWorker.cpp.
pub mod Sizes
use ipc_with_cht.Prelude.{
  ℕ, zero, suc, ◌+◌, Bool, true, false, Option, none, some, List, [], ◌∷◌, ◌==◌, ltb, map,
  if◌then◌else◌,
}
use ipc_with_cht.Nng.{
  Nng, Log, record_call, succeeds, aio_alloc, aio_free, aio_stop, ctx_open, ctx_close,
}
use ipc_with_cht.AioWorker.{AioWorker, Kind, State, init, Turn, process, stop}

-- `AioWorker::create` on an open socket, with `init`. After a failure the destructor reads `m_aio`,
-- which nothing has set; the model takes it for null there, so that only the context is closed once
-- more.
unfoldable pub create_worker : Nng → Kind → Log → Option AioWorker × Log
create_worker nng kind log =
    let allocated = record_call nng aio_alloc log in
    let opened = record_call nng ctx_open allocated in
    let worker : AioWorker = record {
      kind = kind;
      state = init;
      stopping = false;
      has_aio = true;
    } in
    let cleared = λ (l : Log). record_call nng ctx_close (record_call nng aio_free l) in
    if succeeds nng aio_alloc log
    then (if succeeds nng ctx_open allocated
        then (some worker, opened)
        else (none, cleared (cleared opened)))
    else (none, cleared (cleared allocated))

-- `if (worker) m_workers.push_back(worker);`
abbrev pub push_worker : Option AioWorker → List AioWorker → List AioWorker
push_worker none ws = ws
push_worker (some w) ws = w ∷ ws

-- The loop of `init`: `n` workers are tried, and those that are made are kept.
unfoldable pub create_workers : Nng → Kind → ℕ → Log → List AioWorker × Log
create_workers nng kind zero log = ([], log)
create_workers nng kind (suc n) log =
    let (w, log') = create_worker nng kind log in
    let (ws, log'') = create_workers nng kind n log' in (push_worker w ws, log'')

-- The worker after the first run of `process`, whose state was `st` before.
first_run : State → Option Turn → Option AioWorker
first_run init (some t) = some t.worker
first_run _ _ = none

-- `AioWorker::start`: a run of `process`, which for a fresh worker comes before any operation. A
-- worker that was started before has an operation under way, and what `process` finds in that NNG
-- does not say: `none`.
unfoldable pub start_worker : AioWorker → Option AioWorker
unfolding first_run
start_worker w = first_run w.state (process none 0 (record { result = 0; msg = none }) w)

start_both : Option AioWorker → Option (List AioWorker) → Option (List AioWorker)
start_both (some w) (some ws) = some (w ∷ ws)
start_both _ _ = none

unfoldable pub start_workers : List AioWorker → Option (List AioWorker)
unfolding start_worker start_both
start_workers [] = some []
start_workers (w ∷ ws) = start_both (start_worker w) (start_workers ws)

-- `nng_aio_stop` on each worker that has an operation.
stop_worker_calls : Nng → AioWorker → Log → Log
stop_worker_calls nng w log = if w.has_aio then record_call nng aio_stop log else log

unfoldable pub stop_calls : Nng → List AioWorker → Log → Log
unfolding stop_worker_calls
stop_calls nng [] log = log
stop_calls nng (w ∷ ws) log = stop_calls nng ws (stop_worker_calls nng w log)

unfoldable pub stop_workers : List AioWorker → List AioWorker
stop_workers ws = map stop ws

-- `m_workers.clear()`: the destructor stops each worker and frees what it has.
unfoldable pub clear_calls : Nng → List AioWorker → Log → Log
unfolding stop_worker_calls
clear_calls nng [] log = log
clear_calls nng (w ∷ ws) log =
    clear_calls nng ws
      (record_call nng ctx_close (record_call nng aio_free (stop_worker_calls nng w log)))

-- The clamp of a requested number of workers into 1 .. most.
unfoldable pub clamp_workers : ℕ → ℕ → ℕ
clamp_workers most n = if n == 0 then 1 else if ltb most n then most else n
