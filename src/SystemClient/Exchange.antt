-- ===== src/SystemClient/Exchange.antt =====
-- What an exchange sends, and what becomes of its messages.
use ipc_with_cht.Prelude.{
  ℕ, ◌≡◌, refl, ◌∙◌, ap, Bool, true, false, not, ◌&&◌, Option, none, some, [], ◌++◌, append_assoc,
  length, arith, leb,
}
use ipc_with_cht.Prelude.Bytes.{Bytes}
use ipc_with_cht.Nng.{Nng, Log, acquired, disposed}
use ipc_with_cht.Draft.Ownership.{Balanced}
use ipc_with_cht.Draft.Contents.{delivered, deliver}
use ipc_with_cht.RequestHandler.{RequestHandler, append, send, recv, release}
use ipc_with_cht.RequestHandler.Ownership.{
  append_keeps, send_keeps, recv_keeps, send_leaves_none, release-Balanced,
}
use ipc_with_cht.RequestHandler.Deliveries.{
  append_gathers, delivered-sends, delivered-recv, delivered-release, IsFresh, create-IsFresh,
}
use ipc_with_cht.SystemApi.Layout.{struct}
use ipc_with_cht.SystemApi.Command.{Cmd}
use ipc_with_cht.SystemApi.Functions.{Function, endpoint_of}
use ipc_with_cht.SystemClient.{
  Outcome, exchange, execute_with, execute, call, request_hdr, next_msg_id, service_name, judge,
  judge_hdr,
}

-- Whether a request has gone out, by the negated return code: 2, 3 and 4 say that it has not.
unfoldable pub went_out : Option ℕ → Bool
went_out none = true
went_out (some rc) = not (leb 2 rc && leb rc 4)

judge-went_out :
    (cmd : Cmd) (n : ℕ) (done : Bool) (r : Option Bytes) → went_out (judge cmd n done r) ≡ true
unfolding went_out judge judge_hdr
judge-went_out cmd n false r = refl
judge-went_out cmd n true none = refl
judge-went_out cmd n true (some r) = ground arith

-- The requests that are in the log after the calls on a handler without a message.
delivered-exchange :
    (nng : Nng) (hdr : Bytes) (cmd : Cmd) (req : Bytes) (n : ℕ) (wants : Bool) (h : RequestHandler)
    (log : Log)
    → h.msg ≡ none
    → delivered (exchange nng hdr cmd req n wants h log).3
      ≡ deliver (went_out (exchange nng hdr cmd req n wants h log).0) (hdr ++ req) (delivered log)
unfolding exchange went_out
delivered-exchange nng hdr cmd req n wants h log empty =
    let (done1, h1, log1) = append nng (some hdr) h log in
    let (done2, h2, log2) = append nng (some req) h1 log1 in
    let (done3, h3, log3) = send nng h2 log2 in
    let (done4, reply, h4, log4) = recv nng h3 log3 in
    ground (
      arith,
      append_gathers nng hdr h log,
      append_gathers nng req h1 log1,
      delivered-sends nng h2 log2,
      delivered-recv nng h3 log3,
      judge-went_out cmd n done4 reply,
      append_assoc [] hdr req,
    )

exchange-Balanced :
    (nng : Nng) (hdr : Bytes) (cmd : Cmd) (req : Bytes) (n : ℕ) (wants : Bool) (h : RequestHandler)
    (log : Log) (lost : ℕ)
    → Balanced h.msg log lost
    → Balanced
        (exchange nng hdr cmd req n wants h log).2.msg
        (exchange nng hdr cmd req n wants h log).3
        lost
unfolding exchange
exchange-Balanced nng hdr cmd req n wants h log lost v =
    let (done1, h1, log1) = append nng (some hdr) h log in
    let (done2, h2, log2) = append nng (some req) h1 log1 in
    let (done3, h3, log3) = send nng h2 log2 in
    let v1 = append_keeps nng (some hdr) h log lost v in
    let v2 = append_keeps nng (some req) h1 log1 lost v1 in
    let v3 = send_keeps nng h2 log2 lost v2 in
    let v4 = recv_keeps nng h3 log3 lost (send_leaves_none nng h2 log2) v3 in
    ground (arith, v1, v2, v3, v4)

-- What an exchange leaves in the log: exactly if it has gone out, the request as one message, and
-- no message of its own (`lost` counts those that were there before).
abbrev pub Completes : Bytes → Log → ℕ → Outcome → Type 0
Completes m log lost o =
    (delivered o.log ≡ deliver (went_out o.rc) m (delivered log)) × Balanced none o.log lost

fresh-Balanced :
    (h : RequestHandler) (log log' : Log) (lost : ℕ)
    → h.msg ≡ none
    → acquired log' ≡ acquired log
    → disposed log' ≡ disposed log
    → Balanced none log lost
    → Balanced h.msg log' lost
fresh-Balanced h log log' lost e a b v = ground arith

released-Balanced :
    (nng : Nng) (h : RequestHandler) (log : Log) (lost : ℕ)
    → Balanced h.msg log lost
    → Balanced none (release nng h log).2 lost
unfolding release
released-Balanced nng h log lost v = release-Balanced nng h log lost v

execute_with-Completes :
    (nng : Nng) (hdr : Bytes) (cmd : Cmd) (req : Bytes) (n : ℕ) (wants : Bool) (id : ℕ)
    (made : Option RequestHandler × Log) (log : Log) (lost : ℕ)
    → IsFresh log made
    → Balanced none log lost
    → Completes (hdr ++ req) log lost (execute_with nng hdr cmd req n wants id made)
unfolding execute_with went_out
execute_with-Completes nng hdr cmd req n wants id (none, log') log lost (_, d, a, b) v =
    (d, ground (arith, a, b, v))
execute_with-Completes nng hdr cmd req n wants id (some h, log') log lost (e, d, a, b) v =
    let (rc, copy, h', log'') = exchange nng hdr cmd req n wants h log' in
    (
      delivered-release nng h' log''
          ∙ delivered-exchange nng hdr cmd req n wants h log' e
          ∙ ap (deliver _ _) d,
      released-Balanced nng h' log'' lost (
          exchange-Balanced nng hdr cmd req n wants h log' lost
            (fresh-Balanced h log log' lost e a b v)),
    )

-- The exchange for any command.
execute-Completes :
    (nng : Nng) (dir stack : Bytes) (counter : ℕ) (cmd : Cmd) (req : Bytes) (n : ℕ) (wants : Bool)
    (log : Log) (lost : ℕ)
    → Balanced none log lost
    → Completes
        (request_hdr stack (next_msg_id counter) cmd (length req) ++ req)
        log
        lost
        (execute nng dir stack counter cmd req n wants log)
unfolding execute
execute-Completes nng dir stack counter cmd req n wants log lost v =
    execute_with-Completes nng _ cmd req n wants _ _ log lost
      (create-IsFresh nng dir (some service_name) log) v

-- A client function sends, exactly if its return code is none of -2, -3 and -4, one message: the
-- header with the function's command and then the bytes of the request. If the messages acquired
-- so far are disposed of or lost before, then they are after it, whatever it returns: the call
-- loses none and frees none twice.
pub call-Completes :
    (nng : Nng) (dir stack : Bytes) (counter : ℕ) (f : Function) (req : Bytes) (wants : Bool)
    (log : Log) (lost : ℕ)
    → Balanced none log lost
    → Completes
        (request_hdr stack (next_msg_id counter) (endpoint_of f).command (length req) ++ req)
        log
        lost
        (call nng dir stack counter f req wants log)
unfolding call
call-Completes nng dir stack counter f req wants log lost v =
    execute-Completes nng dir stack counter (endpoint_of f).command req
      (struct (endpoint_of f).reply).size wants log lost v
