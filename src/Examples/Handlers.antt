-- ===== src/Examples/Handlers.antt =====
-- Handlers against an NNG that grants everything, or all but an operation.
use ipc_with_cht.Prelude.{ℕ, ◌+◌, ◌≡◌, ◌↔◌, refl, Bool, true, false, some, none, [], ◌∷◌, arith}
use ipc_with_cht.Prelude.Bytes.{Bytes}
use ipc_with_cht.Nng.{Nng, Call, Log, aio_alloc, listen, acquired, disposed}
use ipc_with_cht.Draft.Contents.{delivered, deliver, append_all_send, delivered-append_all_send}
use ipc_with_cht.RequestHandler.{RequestHandler, ipc_url}
use ipc_with_cht.RequestHandler.Ownership.{
  appends, sends, receives, releases, step, run, overwritten_along, run-Balanced,
}
use ipc_with_cht.ResponseHandler.{ResponseHandler}
use ipc_with_cht.ResponseHandler
use ipc_with_cht.ResponseHandler.Lifecycle.{IsReady, create-IsReady, Started, start-Started}
use ipc_with_cht.SubscribeHandler.{SubscribeHandler}
use ipc_with_cht.SubscribeHandler
use ipc_with_cht.SubscribeHandler.Indices.{subscribe_out_of_range}
use ipc_with_cht.SubscribeHandler.Topics.{context_drops, unsubscribe_contexts}
use ipc_with_cht.AioWorker.{AioWorker, init, response, subscribe as subscribes}
use ipc_with_cht.WorkerPool.{create_workers, create_worker, clamp_workers}

abbrev granting : Nng
granting = record { rv = λ log c. 0; body = λ log. 4 ∷ 5 ∷ [] }

fails_aio : Call → ℕ
fails_aio aio_alloc = 2
fails_aio _ = 0

abbrev refusing : Nng
refusing = record { rv = λ log c. fails_aio c; body = λ log. [] }

abbrev name : Bytes
name = b's' ∷ b'v' ∷ b'c' ∷ []

abbrev client : RequestHandler
client = record { ipc_name = name; is_open = true; msg = none; init_done = true }

-- An append, a reply that overwrites it, an append that is sent, and a release.
run-Balanced_example :
    let ops =
      appends (some (1 ∷ [])) ∷ receives ∷ appends (some (2 ∷ [])) ∷ sends ∷ releases ∷ [] in
    let (h, log) = run granting ops client [] in
    acquired log ≡ disposed log + 0 + (overwritten_along granting ops client [] + 0)
unfolding run step acquired disposed
run-Balanced_example =
    run-Balanced granting
      (appends (some (1 ∷ [])) ∷ receives ∷ appends (some (2 ∷ [])) ∷ sends ∷ releases ∷ []) client
      [] 0 refl

delivered-append_all_send_example :
    delivered (append_all_send granting ((1 ∷ 2 ∷ []) ∷ (3 ∷ []) ∷ []) none []).2
    ≡ deliver
        (append_all_send granting ((1 ∷ 2 ∷ []) ∷ (3 ∷ []) ∷ []) none []).0
        (1 ∷ 2 ∷ 3 ∷ [])
        []
unfolding delivered
delivered-append_all_send_example =
    delivered-append_all_send granting ((1 ∷ 2 ∷ []) ∷ (3 ∷ []) ∷ []) none []

abbrev idle_worker : AioWorker
idle_worker = record { kind = response; state = init; stopping = false; has_aio = true }

abbrev server : ResponseHandler
server = record {
  ipc_name = name;
  is_open = true;
  init_done = true;
  worker_num = 2;
  workers = idle_worker ∷ idle_worker ∷ [];
}

create-IsReady_example : IsReady server
unfolding ResponseHandler.create create_workers create_worker clamp_workers
create-IsReady_example = create-IsReady granting (some name) 2 [] server refl

start-Started_example :
    (r : Bool × ResponseHandler × Log) × (ResponseHandler.start granting [] server [] ≡ some r)
    × Started server r
    × ((r.0 ≡ true) ↔ (granting.rv [] (listen (ipc_url [] name)) ≡ 0))
start-Started_example = start-Started granting [] server [] create-IsReady_example

abbrev listener : SubscribeHandler
listener = record {
  ipc_name = name;
  is_open = true;
  init_done = true;
  worker_num = 1;
  workers = record { kind = subscribes; state = init; stopping = false; has_aio = true } ∷ [];
  subscribe_idx = 0;
}

subscribe_out_of_range_example :
    SubscribeHandler.subscribe refusing [] (record listener { workers = [] }) [] ≡ none
unfolding SubscribeHandler.create create_workers create_worker clamp_workers fails_aio
subscribe_out_of_range_example =
    subscribe_out_of_range refusing (some name) [] 4 [] [] (record listener { workers = [] })
      (omega arith) refl refl

unsubscribe_contexts_example :
    let (done, h, log) = SubscribeHandler.unsubscribe granting name listener [] in
    (done ≡ true) × (h ≡ listener) × (context_drops log ≡ name ∷ [])
unfolding context_drops
unsubscribe_contexts_example = unsubscribe_contexts granting name listener [] refl refl
