-- ===== src/SystemClient/Codes.antt =====
-- The return codes of the client functions.
use ipc_with_cht.Prelude.{ℕ, zero, ◌≡◌, ◌⊎◌, ◌↔◌, Bool, true, false, Option, none, some, arith}
use ipc_with_cht.Prelude.Bytes.{Bytes}
use ipc_with_cht.Nng.{Nng, Log}
use ipc_with_cht.RequestHandler.{RequestHandler, create, append, send, recv}
use ipc_with_cht.SystemApi.Command.{Cmd}
use ipc_with_cht.SystemClient.{
  Copy, not_copied, copy_reply, judge_hdr, judge_read, judge, exchange, execute_with, execute,
  service_name,
}
use ipc_with_cht.SystemClient.Wire.{judge_total}

-- No handler, an append that failed, a send that failed, no reply with a fitting header, a reply
-- that is not the answer.
abbrev pub Fails : Option ℕ → Type 0
Fails rc = (rc ≡ some 2) ⊎ (rc ≡ some 3) ⊎ (rc ≡ some 4) ⊎ (rc ≡ some 5) ⊎ (rc ≡ some 6)

-- How a call ends: in a failure with nothing copied, or in the success, which a copy comes before if
-- the caller gave a place for the reply.
abbrev pub Ends : Bool → Option ℕ → Copy → Type 0
Ends wants (some zero) copy = (copy ≡ not_copied) ↔ (wants ≡ false)
Ends wants rc copy = Fails rc × (copy ≡ not_copied)

judge-Ends :
    (cmd : Cmd) (n : ℕ) (wants done : Bool) (r : Option Bytes)
    → Ends wants (judge cmd n done r) (copy_reply wants (judge cmd n done r) r)
unfolding judge judge_hdr judge_read copy_reply
judge-Ends cmd n wants false r = ground arith
judge-Ends cmd n wants true none = ground arith
judge-Ends cmd n wants true (some r) = ground (arith, judge_total cmd n true (some r))

exchange-Ends :
    (nng : Nng) (hdr : Bytes) (cmd : Cmd) (req : Bytes) (n : ℕ) (wants : Bool) (h : RequestHandler)
    (log : Log)
    → let (rc, copy, h', log') = exchange nng hdr cmd req n wants h log in Ends wants rc copy
unfolding exchange
exchange-Ends nng hdr cmd req n wants h log =
    let (done1, h1, log1) = append nng (some hdr) h log in
    let (done2, h2, log2) = append nng (some req) h1 log1 in
    let (done3, h3, log3) = send nng h2 log2 in
    let (done4, reply, h4, log4) = recv nng h3 log3 in
    ground (arith, judge-Ends cmd n wants done4 reply)

execute_with-Ends :
    (nng : Nng) (hdr : Bytes) (cmd : Cmd) (req : Bytes) (n : ℕ) (wants : Bool) (id : ℕ)
    (made : Option RequestHandler × Log)
    → let o = execute_with nng hdr cmd req n wants id made in Ends wants o.rc o.copy
unfolding execute_with
execute_with-Ends nng hdr cmd req n wants id (none, log) = ground arith
execute_with-Ends nng hdr cmd req n wants id (some h, log) =
    exchange-Ends nng hdr cmd req n wants h log

-- Whatever the socket library answers, no field of a reply's header is read outside the reply: a
-- client function ends in one of -2 to -6 with nothing copied, or in 0. Where it ends in 0 it comes
-- to the copy of the reply exactly if the caller gave a place for it (the copy's source is an
-- address that the reply's bytes make up, so that the end is reached only if that can be read).
pub execute-Ends :
    (nng : Nng) (dir stack : Bytes) (counter : ℕ) (cmd : Cmd) (req : Bytes) (n : ℕ) (wants : Bool)
    (log : Log)
    → let o = execute nng dir stack counter cmd req n wants log in Ends wants o.rc o.copy
unfolding execute
execute-Ends nng dir stack counter cmd req n wants log =
    execute_with-Ends nng _ cmd req n wants _ (create nng dir (some service_name) log)
