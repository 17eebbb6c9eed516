-- ===== src/PublishHandler.antt =====
-- NngIpcPublishHandler.cpp and .h: the sending side of publish and subscribe. Each method holds
-- the handler's mutex, so a method is one step.
use ipc_with_cht.Prelude.{Bool, true, false, Option, none, some, [], ◌∷◌, if◌then◌else◌}
use ipc_with_cht.Prelude.Bytes.{Bytes}
use ipc_with_cht.Nng.{
  Nng, Log, Call, record_call, succeeds, socket_open, socket_close, dial, listen,
}
use ipc_with_cht.Draft.{Draft}
use ipc_with_cht.Draft
use ipc_with_cht.RequestHandler.{ipc_url}

-- `is_open` says whether `m_sock` has an id other than 0.
pub record PublishHandler : Type 0 where
  pub ipc_name : Bytes
  pub is_open : Bool
  pub msg : Draft
  pub init_done : Bool
  pub proxy_mode : Bool

pub new : Bytes → Bool → PublishHandler
new name proxy = record {
  ipc_name = name;
  is_open = false;
  msg = none;
  init_done = false;
  proxy_mode = proxy;
}

-- With a forwarder in between the publisher dials it; without one it listens itself.
abbrev pub attach : Bool → Bytes → Call
attach true url = dial url
attach false url = listen url

-- The run of `mkdir -p` is left out: its result is dropped.
unfoldable pub init : Nng → Bytes → PublishHandler → Log → Bool × PublishHandler × Log
init nng dir h log =
    let opened = record_call nng socket_open log in
    let c = attach h.proxy_mode (ipc_url dir h.ipc_name) in
    let attached = record_call nng c opened in
    if succeeds nng socket_open log
    then (if succeeds nng c opened
        then (true, record h { is_open = true; init_done = true }, attached)
        else (false, record h { is_open = true }, attached))
    else (false, h, opened)

unfoldable pub append : Nng → Option Bytes → PublishHandler → Log → Bool × PublishHandler × Log
append nng payload h log =
    let (done, msg, log') = Draft.append nng payload h.msg log in
    (done, record h { msg = msg }, log')

unfoldable pub send : Nng → PublishHandler → Log → Bool × PublishHandler × Log
send nng h log =
    let (done, msg, log') = Draft.send nng h.msg log in (done, record h { msg = msg }, log')

unfoldable pub release : Nng → PublishHandler → Log → Bool × PublishHandler × Log
release nng h log = (
  true,
  record h { is_open = false; msg = none; init_done = false },
  record_call nng socket_close (Draft.discard nng h.msg log),
)

-- A handler; or null, after the destructor has released what `init` had opened.
unfoldable pub create : Nng → Bytes → Option Bytes → Bool → Log → Option PublishHandler × Log
unfolding new init release
create nng dir none proxy log = (none, log)
create nng dir (some []) proxy log = (none, log)
create nng dir (some (b ∷ bs)) proxy log =
    let (done, h, log') = init nng dir (new (b ∷ bs) proxy) log in
    if done then (some h, log') else (none, (release nng h log').2)
