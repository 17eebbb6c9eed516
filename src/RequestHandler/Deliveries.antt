-- ===== src/RequestHandler/Deliveries.antt =====
-- What the operations of a request handler deliver, and what creating one leaves.
use ipc_with_cht.Prelude.{◌≡◌, refl, true, Option, none, some, [], ◌∷◌, ◌++◌, arith}
use ipc_with_cht.Prelude.Bytes.{Bytes}
use ipc_with_cht.Nng.{Nng, Log, acquired, disposed}
use ipc_with_cht.Draft.{Draft, discard}
use ipc_with_cht.Draft.Contents.{
  delivered, deliver, gathered, append_adds, delivered-append, delivered-send,
}
use ipc_with_cht.RequestHandler.{RequestHandler, new, init, create, append, send, recv, release}

pub delivered-recv :
    (nng : Nng) (h : RequestHandler) (log : Log) → delivered (recv nng h log).3 ≡ delivered log
unfolding recv delivered
delivered-recv nng h log = ground arith

delivered-discard :
    (nng : Nng) (msg : Draft) (log : Log) → delivered (discard nng msg log) ≡ delivered log
unfolding discard delivered
delivered-discard nng none log = refl
delivered-discard nng (some m) log = refl

pub delivered-release :
    (nng : Nng) (h : RequestHandler) (log : Log) → delivered (release nng h log).2 ≡ delivered log
unfolding release delivered
delivered-release nng h log = delivered-discard nng h.msg log

-- No handler, or one without a message; nothing has been delivered, and no message acquired.
abbrev pub HasNoMessage : Option RequestHandler → Type 0
HasNoMessage none = Unit {0}
HasNoMessage (some h) = h.msg ≡ none

abbrev pub IsFresh : Log → Option RequestHandler × Log → Type 0
IsFresh log (made, log') =
    HasNoMessage made
    × (delivered log' ≡ delivered log)
    × (acquired log' ≡ acquired log)
    × (disposed log' ≡ disposed log)

init_keeps :
    (nng : Nng) (dir : Bytes) (h : RequestHandler) (log : Log)
    → ((init nng dir h log).1.msg ≡ h.msg)
      × (delivered (init nng dir h log).2 ≡ delivered log)
      × (acquired (init nng dir h log).2 ≡ acquired log)
      × (disposed (init nng dir h log).2 ≡ disposed log)
unfolding init delivered acquired disposed
init_keeps nng dir h log = ground arith

release_empty :
    (nng : Nng) (h : RequestHandler) (log : Log)
    → h.msg ≡ none
    → (acquired (release nng h log).2 ≡ acquired log)
      × (disposed (release nng h log).2 ≡ disposed log)
unfolding release discard acquired disposed
release_empty nng h log e = ground arith

pub create-IsFresh :
    (nng : Nng) (dir : Bytes) (name : Option Bytes) (log : Log)
    → IsFresh log (create nng dir name log)
unfolding create new
create-IsFresh nng dir none log = (tt, refl, refl, refl)
create-IsFresh nng dir (some []) log = (tt, refl, refl, refl)
create-IsFresh nng dir (some (b ∷ bs)) log =
    let h = new (b ∷ bs) in
    let (done, h', log') = init nng dir h log in
    ground
      (arith, init_keeps nng dir h log, delivered-release nng h' log', release_empty nng h' log')

-- An append that succeeds adds the payload at the end, and none delivers anything.
pub append_gathers :
    (nng : Nng) (payload : Bytes) (h : RequestHandler) (log : Log)
    → ((append nng (some payload) h log).0 ≡ true
        → (append nng (some payload) h log).1.msg ≡ some (gathered h.msg ++ payload))
      × (delivered (append nng (some payload) h log).2 ≡ delivered log)
unfolding append
append_gathers nng payload h log =
    (append_adds nng payload h.msg log, delivered-append nng (some payload) h.msg log)

-- A send delivers what was gathered, exactly if it succeeds.
pub delivered-sends :
    (nng : Nng) (h : RequestHandler) (log : Log)
    → delivered (send nng h log).2 ≡ deliver (send nng h log).0 (gathered h.msg) (delivered log)
unfolding send
delivered-sends nng h log = delivered-send nng h.msg log
