-- ===== src/RequestHandler/Ownership.antt =====
-- What becomes of the messages of a request handler over any sequence of calls.
use ipc_with_cht.Prelude.{ℕ, ◌+◌, ◌≡◌, Option, none, List, [], ◌∷◌, arith, if◌then◌else◌}
use ipc_with_cht.Prelude.Bytes.{Bytes}
use ipc_with_cht.Nng.{Nng, Log, acquired, disposed, succeeds, recvmsg}
use ipc_with_cht.Draft.Contents.{send_empties}
use ipc_with_cht.Draft.Ownership.{held, Balanced, append-Balanced, send-Balanced, discard-Balanced}
use ipc_with_cht.RequestHandler.{RequestHandler, append, send, recv, release}

-- What a client of the handler calls.
pub data Op : Type 0 where
  appends : Option Bytes → Op
  sends receives releases : Op

unfoldable pub step : Nng → Op → RequestHandler → Log → RequestHandler × Log
unfolding append send recv release
step nng (appends p) h log = let (_, h', log') = append nng p h log in (h', log')
step nng sends h log = let (_, h', log') = send nng h log in (h', log')
step nng receives h log = let (_, _, h', log') = recv nng h log in (h', log')
step nng releases h log = let (_, h', log') = release nng h log in (h', log')

-- A message that is pending when a reply comes is overwritten.
abbrev pub overwritten : Nng → Op → RequestHandler → Log → ℕ
overwritten nng receives h log = if succeeds nng recvmsg log then held h.msg else 0
overwritten nng _ h log = 0

unfoldable pub run : Nng → List Op → RequestHandler → Log → RequestHandler × Log
run nng [] h log = (h, log)
run nng (op ∷ ops) h log = let (h', log') = step nng op h log in run nng ops h' log'

-- The messages overwritten along a run.
unfoldable pub overwritten_along : Nng → List Op → RequestHandler → Log → ℕ
overwritten_along nng [] h log = 0
overwritten_along nng (op ∷ ops) h log =
    let (h', log') = step nng op h log in
    overwritten nng op h log + overwritten_along nng ops h' log'

pub recv-Balanced :
    (nng : Nng) (h : RequestHandler) (log : Log) (lost : ℕ)
    → Balanced h.msg log lost
    → Balanced (recv nng h log).2.msg (recv nng h log).3 (overwritten nng receives h log + lost)
unfolding recv acquired disposed
recv-Balanced nng h log lost v = ground arith

pub release-Balanced :
    (nng : Nng) (h : RequestHandler) (log : Log) (lost : ℕ)
    → Balanced h.msg log lost
    → Balanced (release nng h log).1.msg (release nng h log).2 lost
unfolding release acquired disposed
release-Balanced nng h log lost v = ground (arith, discard-Balanced nng h.msg log lost)

step-Balanced :
    (nng : Nng) (op : Op) (h : RequestHandler) (log : Log) (lost : ℕ)
    → Balanced h.msg log lost
    → Balanced (step nng op h log).0.msg (step nng op h log).1 (overwritten nng op h log + lost)
unfolding step
step-Balanced nng (appends p) h log lost v = ground (arith, append-Balanced nng p h.msg log lost v)
step-Balanced nng sends h log lost v = ground (arith, send-Balanced nng h.msg log lost v)
step-Balanced nng receives h log lost v = recv-Balanced nng h log lost v
step-Balanced nng releases h log lost v = ground (arith, release-Balanced nng h log lost v)

-- After any run of calls the messages that the handler acquired are those that it freed or handed
-- over to NNG, the one that it holds, and those that a reply has overwritten: no message is freed
-- twice, and only a `recv` with a message pending loses one.
pub run-Balanced :
    (nng : Nng) (ops : List Op) (h : RequestHandler) (log : Log) (lost : ℕ)
    → Balanced h.msg log lost
    → Balanced
        (run nng ops h log).0.msg
        (run nng ops h log).1
        (overwritten_along nng ops h log + lost)
unfolding run overwritten_along
run-Balanced nng [] h log lost v = omega arith
run-Balanced nng (op ∷ ops) h log lost v =
    let (h', log') = step nng op h log in
    omega (
      arith,
      run-Balanced nng ops h' log' (overwritten nng op h log + lost)
          (step-Balanced nng op h log lost v),
    )

-- The operations by themselves. A reply that comes after a send overwrites nothing.
pub append_keeps :
    (nng : Nng) (p : Option Bytes) (h : RequestHandler) (log : Log) (lost : ℕ)
    → Balanced h.msg log lost
    → Balanced (append nng p h log).1.msg (append nng p h log).2 lost
unfolding append
append_keeps nng p h log lost v = append-Balanced nng p h.msg log lost v

pub send_keeps :
    (nng : Nng) (h : RequestHandler) (log : Log) (lost : ℕ)
    → Balanced h.msg log lost
    → Balanced (send nng h log).1.msg (send nng h log).2 lost
unfolding send
send_keeps nng h log lost v = send-Balanced nng h.msg log lost v

pub recv_keeps :
    (nng : Nng) (h : RequestHandler) (log : Log) (lost : ℕ)
    → h.msg ≡ none
    → Balanced h.msg log lost
    → Balanced (recv nng h log).2.msg (recv nng h log).3 lost
unfolding recv acquired disposed
recv_keeps nng h log lost e v = ground arith

pub send_leaves_none : (nng : Nng) (h : RequestHandler) (log : Log) → (send nng h log).1.msg ≡ none
unfolding send
send_leaves_none nng h log = send_empties nng h.msg log
