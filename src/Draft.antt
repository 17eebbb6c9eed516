-- ===== src/Draft.antt =====
-- The message under construction, `m_msg`, in NngIpcRequestHandler.cpp and, with the same text, in
-- NngIpcPublishHandler.cpp: `append`, `send`, and the start of `release`.
pub mod Ownership
pub mod Contents
use ipc_with_cht.Prelude.{
  Bool, true, false, Option, none, some, List, [], ◌∷◌, ◌++◌, ◌==◌, if◌then◌else◌,
}
use ipc_with_cht.Prelude.Bytes.{Bytes}
use ipc_with_cht.Nng.{Nng, Log, record_call, succeeds, msg_alloc, msg_free, msg_append, sendmsg}

-- The body of the message that `m_msg` points to, or `none` where it is NULL.
abbrev pub Draft : Type 0
Draft = Option Bytes

-- The end of `append`, on the message at hand.
append_to : Nng → Bytes → Bytes → Log → Bool × Draft × Log
append_to nng payload m log =
    let appended = record_call nng (msg_append payload) log in
    if succeeds nng (msg_append payload) log
    then (true, some (m ++ payload), appended)
    else (false, none, record_call nng msg_free appended)

-- A payload is `none` where its pointer is null.
unfoldable pub append : Nng → Option Bytes → Draft → Log → Bool × Draft × Log
unfolding append_to
append nng none msg log = (false, msg, log)
append nng (some []) msg log = (false, msg, log)
append nng (some (b ∷ bs)) (some m) log = append_to nng (b ∷ bs) m log
append nng (some (b ∷ bs)) none log =
    if succeeds nng msg_alloc log
    then append_to nng (b ∷ bs) [] (record_call nng msg_alloc log)
    else (false, none, record_call nng msg_alloc log)

-- Whatever comes of the send, the handler has no message left.
unfoldable pub send : Nng → Draft → Log → Bool × Draft × Log
send nng none log = (false, none, log)
send nng (some m) log =
    let sent = record_call nng (sendmsg m) log in
    if succeeds nng (sendmsg m) log
    then (true, none, sent)
    else (false, none, record_call nng msg_free sent)

unfoldable pub discard : Nng → Draft → Log → Log
discard nng none log = log
discard nng (some m) log = record_call nng msg_free log
