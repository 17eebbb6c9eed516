-- ===== src/ResponseHandler/Lifecycle.antt =====
-- The life of a response handler: created, started, stopped, released.
use ipc_with_cht.Prelude.{
  ℕ, ◌≤◌, ◌≡◌, ◌==◌, refl, ◌↔◌, inl, inr, Bool-cases, Bool, true, false, Option, none, some, [],
  ◌∷◌, arith, length,
}
use ipc_with_cht.Prelude.Bytes.{Bytes}
use ipc_with_cht.Nng.{Nng, Log, record_call, listen, socket_open}
use ipc_with_cht.AioWorker.{init, recv, response}
use ipc_with_cht.WorkerPool.{clamp_workers}
use ipc_with_cht.WorkerPool.Sizes.{
  clamp_workers_bounds, length-create_workers, create_workers-AllIn, start_workers-fresh, AllIn,
}
use ipc_with_cht.RequestHandler.{ipc_url}
use ipc_with_cht.ResponseHandler.{ResponseHandler, max_worker_num, create, start}

-- A handler that is ready to start: at most 8 workers, none of them at work.
pub record IsReady (h : ResponseHandler) : Type 0 where
  pub is_open : h.is_open ≡ true
  pub init_done : h.init_done ≡ true
  pub at_least_one : 1 ≤ h.worker_num
  pub bounded : h.worker_num ≤ max_worker_num
  pub fits : length h.workers ≤ h.worker_num
  pub fresh : AllIn init h.workers

-- Whatever number of workers is asked for, a handler that `create` returns has at most as many
-- workers as its clamped number, which is between 1 and 8, and each of them is fresh.
pub create-IsReady :
    (nng : Nng) (name : Option Bytes) (n : ℕ) (log : Log) (h : ResponseHandler)
    → (create nng name n log).0 ≡ some h
    → IsReady h
unfolding create
create-IsReady nng none n log h e = cc
create-IsReady nng (some []) n log h e = cc
create-IsReady nng (some (b ∷ bs)) n log h e =
    let k = clamp_workers max_worker_num n in
    let opened = record_call nng socket_open log in
    ground (
      arith,
      clamp_workers_bounds max_worker_num n,
      length-create_workers nng response k opened,
      create_workers-AllIn nng response k opened,
    )

abbrev pub Started : ResponseHandler → Bool × ResponseHandler × Log → Type 0
Started h (true, h', log) =
    AllIn recv h'.workers × (length h'.workers ≡ length h.workers) × (h'.is_open ≡ true)
Started h (false, h', log) = h' ≡ h

-- A ready handler can be started, which succeeds exactly if it can listen on its URL: then each of
-- its workers is receiving, and none is lost. Otherwise the handler is left as it was.
pub start-Started :
    (nng : Nng) (dir : Bytes) (h : ResponseHandler) (log : Log)
    → IsReady h
    → (r : Bool × ResponseHandler × Log) × (start nng dir h log ≡ some r)
      × Started h r
      × ((r.0 ≡ true) ↔ (nng.rv log (listen (ipc_url dir h.ipc_name)) ≡ 0))
unfolding start
start-Started nng dir h log v =
    let url = ipc_url dir h.ipc_name in
    let (ws, e, in_recv, same) = start_workers-fresh h.workers v.fresh in
    elim (Bool-cases (nng.rv log (listen url) == 0)) [
      | inl z ↦ (
        (true, record h { workers = ws }, record_call nng (listen url) log),
        ground (arith, e, z, v.init_done),
        (in_recv, same, v.is_open),
        ground (arith, z),
      )
      | inr z ↦ (
        (false, h, record_call nng (listen url) log),
        ground (arith, z, v.init_done),
        refl,
        ground (arith, z),
      )
    ]
