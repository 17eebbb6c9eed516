-- ===== src/WorkerPool/Sizes.antt =====
-- How many workers a pool has, and what state they are in.
use ipc_with_cht.Prelude.{
  ℕ, zero, suc, ◌≤◌, ◌≡◌, refl, true, false, some, List, [], ◌∷◌, arith, length,
}
use ipc_with_cht.Nng.{Nng, Log, record_call, aio_alloc, ctx_open}
use ipc_with_cht.AioWorker.{AioWorker, State, Kind, init, recv, process}
use ipc_with_cht.WorkerPool.{
  create_worker, create_workers, start_worker, start_workers, clamp_workers,
}

pub clamp_workers_bounds :
    (most n : ℕ) → 1 ≤ most → (1 ≤ clamp_workers most n) × (clamp_workers most n ≤ most)
unfolding clamp_workers
clamp_workers_bounds most n h = ground arith

pub length-create_workers :
    (nng : Nng) (kind : Kind) (n : ℕ) (log : Log) → length (create_workers nng kind n log).0 ≤ n
unfolding create_workers
length-create_workers nng kind zero log = omega arith
length-create_workers nng kind (suc n) log =
    let (w, log') = create_worker nng kind log in
    ground (arith, length-create_workers nng kind n log')

-- The environment always grants what a worker needs.
abbrev pub Grants : Nng → Type 0
Grants nng = (log : Log) → (nng.rv log aio_alloc ≡ 0) × (nng.rv log ctx_open ≡ 0)

create_worker-some :
    (nng : Nng) (kind : Kind) (log : Log)
    → Grants nng
    → (create_worker nng kind log).0
      ≡ some (record { kind = kind; state = init; stopping = false; has_aio = true })
unfolding create_worker
create_worker-some nng kind log g = ground (arith, g log, g (record_call nng aio_alloc log))

pub length-create_workers_all :
    (nng : Nng) (kind : Kind) (n : ℕ) (log : Log)
    → Grants nng
    → length (create_workers nng kind n log).0 ≡ n
unfolding create_workers
length-create_workers_all nng kind zero log g = refl
length-create_workers_all nng kind (suc n) log g =
    let (w, log') = create_worker nng kind log in
    ground (arith, create_worker-some nng kind log g, length-create_workers_all nng kind n log' g)

-- Every worker of the list is in the state, and has its operation.
abbrev pub AllIn : State → List AioWorker → Type 0
AllIn s [] = Unit {0}
AllIn s (w ∷ ws) = (w.state ≡ s) × (w.has_aio ≡ true) × (w.stopping ≡ false) × AllIn s ws

pub create_workers-AllIn :
    (nng : Nng) (kind : Kind) (n : ℕ) (log : Log) → AllIn init (create_workers nng kind n log).0
unfolding create_workers create_worker
create_workers-AllIn nng kind zero log = tt
create_workers-AllIn nng kind (suc n) log =
    let (w, log') = create_worker nng kind log in
    ground (arith, create_workers-AllIn nng kind n log')

-- Fresh workers can be started: each is receiving then, and none is lost.
pub start_workers-fresh :
    (ws : List AioWorker)
    → AllIn init ws
    → (vs : List AioWorker) × (start_workers ws ≡ some vs) × AllIn recv vs × (length vs ≡ length ws)
unfolding start_workers start_worker process
start_workers-fresh [] h = ([], refl, tt, refl)
start_workers-fresh (w ∷ ws) h =
    let (vs, e, a, l) = start_workers-fresh ws h.3 in
    (record w { state = recv } ∷ vs, ground (arith, e), ground (arith, a), ground (arith, l))
