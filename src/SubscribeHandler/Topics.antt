-- ===== src/SubscribeHandler/Topics.antt =====
-- The topics of the workers' contexts.
use ipc_with_cht.Prelude.{
  ℕ, zero, suc, ◌≡◌, refl, ap, ◌∙◌, true, List, [], ◌∷◌, ◌++◌, arith, length, replicate,
}
use ipc_with_cht.Prelude.Bytes.{Bytes}
use ipc_with_cht.Nng.{Nng, Log, Call, record_call, ctx_unsubscribe, socket_unsubscribe}
use ipc_with_cht.AioWorker.{AioWorker}
use ipc_with_cht.SubscribeHandler.{SubscribeHandler, unsubscribe_workers, unsubscribe}

dropped_by : Call → List Bytes
dropped_by (ctx_unsubscribe topic) = topic ∷ []
dropped_by _ = []

-- The topics that contexts were asked to drop, one for each call, the last one first.
unfoldable pub context_drops : Log → List Bytes
unfolding dropped_by
context_drops [] = []
context_drops (e ∷ log) = dropped_by e.call ++ context_drops log

replicate-shift :
    (n : ℕ) (t : Bytes) (ts : List Bytes) → replicate n t ++ t ∷ ts ≡ t ∷ replicate n t ++ ts
replicate-shift zero t ts = refl
replicate-shift (suc n) t ts = ap (λ us. t ∷ us) (replicate-shift n t ts)

named_topic :
    (nng : Nng) (b : ℕ) (bs : Bytes) (ws : List AioWorker) (log : Log)
    → context_drops (unsubscribe_workers nng (b ∷ bs) ws log)
      ≡ replicate (length ws) (b ∷ bs) ++ context_drops log
unfolding unsubscribe_workers context_drops
named_topic nng b bs [] log = refl
named_topic nng b bs (w ∷ ws) log =
    named_topic nng b bs ws (record_call nng (ctx_unsubscribe (b ∷ bs)) log)
    ∙ replicate-shift (length ws) (b ∷ bs) (context_drops log)

empty_topic :
    (nng : Nng) (ws : List AioWorker) (log : Log)
    → context_drops (unsubscribe_workers nng [] ws log) ≡ context_drops log
unfolding unsubscribe_workers
empty_topic nng [] log = refl
empty_topic nng (w ∷ ws) log = empty_topic nng ws log

-- The contexts that are asked to drop the topic: all, but none for the empty topic.
abbrev pub contexts_asked : Bytes → List AioWorker → ℕ
contexts_asked [] ws = 0
contexts_asked (b ∷ bs) ws = length ws

-- An `unsubscribe` that the socket accepts asks the context of every worker to drop just that topic,
-- once; the empty topic, which stands for all messages, it drops at no context.
pub unsubscribe_contexts :
    (nng : Nng) (topic : Bytes) (h : SubscribeHandler) (log : Log)
    → h.init_done ≡ true
    → nng.rv log (socket_unsubscribe topic) ≡ 0
    → let (done, h', log') = unsubscribe nng topic h log in
      (done ≡ true)
      × (h' ≡ h)
      × (context_drops log' ≡ replicate (contexts_asked topic h.workers) topic ++ context_drops log)
unfolding unsubscribe context_drops
unsubscribe_contexts nng [] h log i s =
    let asked = record_call nng (socket_unsubscribe []) log in
    ground (arith, empty_topic nng h.workers asked)
unsubscribe_contexts nng (b ∷ bs) h log i s =
    let asked = record_call nng (socket_unsubscribe (b ∷ bs)) log in
    ground (arith, named_topic nng b bs h.workers asked)
