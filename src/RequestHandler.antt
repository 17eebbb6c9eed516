-- ===== src/RequestHandler.antt =====
-- NngIpcRequestHandler.cpp and .h: the client side of a request and its reply. Each method holds
-- the handler's mutex from its first access to the state to its return, so a method is one step.
pub mod Ownership
pub mod Deliveries
use ipc_with_cht.Prelude.{
  ℕ, Bool, true, false, Option, none, some, List, [], ◌∷◌, ◌++◌, ◌==◌, length, if◌then◌else◌,
}
use ipc_with_cht.Prelude.Bytes.{Bytes}
use ipc_with_cht.Nng.{
  Nng, Log, record_call, succeeds, socket_open, socket_close, dial, msg_free, recvmsg, malloc,
}
use ipc_with_cht.Draft.{Draft}
use ipc_with_cht.Draft

-- `is_open` says whether `m_sock` has an id other than 0.
pub record RequestHandler : Type 0 where
  pub ipc_name : Bytes
  pub is_open : Bool
  pub msg : Draft
  pub init_done : Bool

-- The URL of a handler: "ipc://", the folder NNGIPC_DIR_PATH, "/" and the name.
abbrev pub ipc_url : Bytes → Bytes → Bytes
ipc_url dir name = (b'i' ∷ b'p' ∷ b'c' ∷ b':' ∷ b'/' ∷ b'/' ∷ []) ++ (dir ++ (b'/' ∷ name))

new : Bytes → RequestHandler
new name = record { ipc_name = name; is_open = false; msg = none; init_done = false }

-- The run of `mkdir -p` is left out: its result is dropped.
unfoldable pub init : Nng → Bytes → RequestHandler → Log → Bool × RequestHandler × Log
init nng dir h log =
    let opened = record_call nng socket_open log in
    let url = ipc_url dir h.ipc_name in
    let dialed = record_call nng (dial url) opened in
    if succeeds nng socket_open log
    then (if succeeds nng (dial url) opened
        then (true, record h { is_open = true; init_done = true }, dialed)
        else (false, record h { is_open = true }, dialed))
    else (false, h, opened)

unfoldable pub append : Nng → Option Bytes → RequestHandler → Log → Bool × RequestHandler × Log
append nng payload h log =
    let (done, msg, log') = Draft.append nng payload h.msg log in
    (done, record h { msg = msg }, log')

unfoldable pub send : Nng → RequestHandler → Log → Bool × RequestHandler × Log
send nng h log =
    let (done, msg, log') = Draft.send nng h.msg log in (done, record h { msg = msg }, log')

-- The reply is copied to memory of the caller's, and is `none` where `malloc` gives NULL.
unfoldable pub recv : Nng → RequestHandler → Log → Bool × Option Bytes × RequestHandler × Log
recv nng h log =
    let received = record_call nng recvmsg log in
    let body = nng.body log in
    let copied = record_call nng (malloc (length body)) received in
    let reply = if succeeds nng (malloc (length body)) received then none else some body in
    if succeeds nng recvmsg log
    then (true, reply, record h { msg = none }, record_call nng msg_free copied)
    else (false, none, h, received)

unfoldable pub release : Nng → RequestHandler → Log → Bool × RequestHandler × Log
release nng h log = (
  true,
  record h { is_open = false; msg = none; init_done = false },
  record_call nng socket_close (Draft.discard nng h.msg log),
)

-- A handler; or null, after the destructor has released what `init` had opened.
unfoldable pub create : Nng → Bytes → Option Bytes → Log → Option RequestHandler × Log
unfolding new init release
create nng dir none log = (none, log)
create nng dir (some []) log = (none, log)
create nng dir (some (b ∷ bs)) log =
    let (done, h, log') = init nng dir (new (b ∷ bs)) log in
    if done then (some h, log') else (none, (release nng h log').2)
