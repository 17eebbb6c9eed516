-- ===== src/Event/Handle.antt =====
-- The event handle of zwsystem_ipc_event.cpp: publishing and listening. A return code -n is the
-- number n, and 0 is success.
pub mod Sending
pub mod Listening
use ipc_with_cht.Prelude.{
  ℕ, ◌+◌, Bool, true, false, Option, none, some, List, [], ◌∷◌, length, if◌then◌else◌,
}
use ipc_with_cht.Prelude.Bytes.{Bytes}
use ipc_with_cht.Nng.{Nng, Log}
use ipc_with_cht.PublishHandler.{PublishHandler}
use ipc_with_cht.PublishHandler
use ipc_with_cht.SubscribeHandler.{SubscribeHandler}
use ipc_with_cht.SubscribeHandler
use ipc_with_cht.Event.{Clock, u32, event_hdr, msg_hdr}

pub record EventHandle : Type 0 where
  pub seq_id : ℕ
  pub pub_sp : Option PublishHandler
  pub sub_sp : Option SubscribeHandler

-- `if (wrapper->sub_sp)`.
is_there : Option SubscribeHandler → Bool
is_there none = false
is_there (some s) = true

unfoldable pub new : EventHandle
new = record { seq_id = 0; pub_sp = none; sub_sp = none }

-- Where the build puts the handler's files, and the names and mode of its two sockets.
pub record Build : Type 0 where
  pub dir : Bytes
  pub publish_name : Bytes
  pub subscribe_name : Bytes
  pub proxy_mode : Bool

-- What a run of `zs_ipc_sendEvent` finds: the clocks, and the stack where it builds the headers.
pub record Frame : Type 0 where
  pub clock : Clock
  pub hdr_stack : Bytes
  pub msg_stack : Bytes

-- The publisher that is there, or a new one.
publisher : Nng → Build → Option PublishHandler → Log → Option PublishHandler × Log
publisher nng b (some p) log = (some p, log)
publisher nng b none log = PublishHandler.create nng b.dir (some b.publish_name) b.proxy_mode log

-- The three appends and the send, each with its return code.
unfoldable pub transmit :
    Nng → Bytes → Bytes → Bytes → PublishHandler → Log → ℕ × PublishHandler × Log
transmit nng hdr msg payload p0 log0 =
    let (done1, p1, log1) = PublishHandler.append nng (some hdr) p0 log0 in
    let (done2, p2, log2) = PublishHandler.append nng (some msg) p1 log1 in
    let (done3, p3, log3) = PublishHandler.append nng (some payload) p2 log2 in
    let (done4, p4, log4) = PublishHandler.send nng p3 log3 in
    if done1
    then (if done2
        then (if done3 then (if done4 then (0, p4, log4) else (6, p4, log4)) else (5, p3, log3))
        else (4, p2, log2))
    else (3, p1, log1)

unfoldable pub send_with :
    Nng
    → Frame
    → Option Bytes
    → Bytes
    → EventHandle
    → Option PublishHandler × Log
    → ℕ × EventHandle × Log
send_with nng f topic payload e (none, log) = (2, record e { pub_sp = none }, log)
send_with nng f topic payload e (some p, log) =
    let hdr = event_hdr f.hdr_stack topic e.seq_id f.clock (length payload) in
    let msg = msg_hdr f.msg_stack (length payload) in
    let (rc, p', log') = transmit nng hdr msg payload p log in
    (rc, record e { pub_sp = some p'; seq_id = u32 (e.seq_id + 1) }, log')

-- The handle is `none` where it is null; so are a topic and data.
unfoldable pub send_event :
    Nng → Build → Frame → Option Bytes → Option Bytes → EventHandle → Log → ℕ × EventHandle × Log
unfolding publisher
send_event nng b f topic none e log = (1, e, log)
send_event nng b f topic (some []) e log = (1, e, log)
send_event nng b f topic (some (d ∷ ds)) e log =
    send_with nng f topic (d ∷ ds) e (publisher nng b e.pub_sp log)

-- The handle after the start of its new subscriber `s`.
after_start :
    Nng → EventHandle → Option (Bool × SubscribeHandler × Log) → Option (ℕ × EventHandle × Log)
after_start nng e none = none
after_start nng e (some (done, s, log)) =
    let (_, s', log') = SubscribeHandler.stop nng s log in
    let (_, _, log'') = SubscribeHandler.release nng s' log' in
    if done
    then some (0, record e { sub_sp = some s }, log)
    else some (4, record e { sub_sp = none }, log'')

-- The subscriber of a handle after `create`, then `start`.
listen_with :
    Nng → Build → EventHandle → Option SubscribeHandler × Log → Option (ℕ × EventHandle × Log)
unfolding after_start
listen_with nng b e (none, log) = some (3, record e { sub_sp = none }, log)
listen_with nng b e (some s, log) = after_start nng e (SubscribeHandler.start nng b.dir s log)

-- `has_callback` says whether `cb` is not null; `none` would be the start of a worker that was
-- started before.
unfoldable pub start_listen :
    Nng → Build → Bool → ℕ → EventHandle → Log → Option (ℕ × EventHandle × Log)
unfolding listen_with
start_listen nng b has_callback n e log =
    if has_callback
    then elim e.sub_sp [
      | some s ↦ some (2, e, log)
      | none ↦ listen_with nng b e (SubscribeHandler.create nng (some b.subscribe_name) n log)
    ]
    else some (1, e, log)

-- The second `if (wrapper->sub_sp)`: the subscriber is stopped and destroyed, which stops and
-- releases it once more.
drop_subscriber : Nng → Option SubscribeHandler → EventHandle → Log → EventHandle × Log
drop_subscriber nng none e log = (e, log)
drop_subscriber nng (some s) e log =
    let (_, s1, log1) = SubscribeHandler.stop nng s log in
    let (_, s2, log2) = SubscribeHandler.stop nng s1 log1 in
    let (_, _, log3) = SubscribeHandler.release nng s2 log2 in (record e { sub_sp = none }, log3)

unfoldable pub stop_listen : Nng → EventHandle → Log → ℕ × EventHandle × Log
unfolding is_there drop_subscriber
stop_listen nng e log =
    let (e', log') = drop_subscriber nng e.sub_sp e log in
    if is_there e.sub_sp then (2, e, log) else (0, e', log')

after_subscribe :
    EventHandle → Option (Bool × SubscribeHandler × Log) → Option (ℕ × EventHandle × Log)
after_subscribe e none = none
after_subscribe e (some (done, s, log)) =
    some ((if done then 0 else 2), record e { sub_sp = some s }, log)

-- `none` is the read out of range in the subscriber. With no subscriber nothing is done.
unfoldable pub subscribe_event :
    Nng → Option Bytes → EventHandle → Log → Option (ℕ × EventHandle × Log)
unfolding after_subscribe
subscribe_event nng none e log = some (1, e, log)
subscribe_event nng (some topic) e log = elim e.sub_sp [
  | none ↦ some (0, e, log)
  | some s ↦ after_subscribe e (SubscribeHandler.subscribe nng topic s log)
]

unfoldable pub unsubscribe_event : Nng → Option Bytes → EventHandle → Log → ℕ × EventHandle × Log
unsubscribe_event nng none e log = (1, e, log)
unsubscribe_event nng (some topic) e log = elim e.sub_sp [
  | none ↦ (0, e, log)
  | some s ↦
      let (done, s', log') = SubscribeHandler.unsubscribe nng topic s log in
      ((if done then 0 else 2), record e { sub_sp = some s' }, log')
]

-- `zw_ipc_freeEventHandle`: the handlers are destroyed, the subscriber after a stop.
free_publisher : Nng → Option PublishHandler → Log → Log
free_publisher nng none log = log
free_publisher nng (some p) log = (PublishHandler.release nng p log).2

free_subscriber : Nng → Option SubscribeHandler → Log → Log
free_subscriber nng none log = log
free_subscriber nng (some s) log =
    let (_, s', log') = SubscribeHandler.stop nng s log in
    let (_, s'', log'') = SubscribeHandler.stop nng s' log' in
    (SubscribeHandler.release nng s'' log'').2

unfoldable pub free : Nng → EventHandle → Log → Log
unfolding free_publisher free_subscriber
free nng e log = free_subscriber nng e.sub_sp (free_publisher nng e.pub_sp log)
