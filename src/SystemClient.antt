-- ===== src/SystemClient.antt =====
-- implement/zwsystemInterface/zwsystem_ipc_client.cpp, with the header of zwsystem_ipc_defined.h: a
-- client function sends a header and its request to the system service and waits for the reply.
pub mod Ids
pub mod Records
pub mod Wire
pub mod Exchange
pub mod Codes
pub mod Listener
pub mod SubMessage
use ipc_with_cht.Prelude.{
  ℕ, zero, ◌+◌, ◌*◌, ◌%◌, ◌^◌, Bool, true, false, ◌&&◌, Option, none, some, List, [], ◌∷◌, ◌==◌,
  ltb, leb, length, take, if◌then◌else◌,
}
use ipc_with_cht.Prelude.Bytes.{Bytes, load}
use ipc_with_cht.Prelude.Memory.{store_num}
use ipc_with_cht.Prelude.Text.{codes}
use ipc_with_cht.Nng.{Nng, Log}
use ipc_with_cht.RequestHandler.{RequestHandler, create, append, send, recv, release}
use ipc_with_cht.SystemApi.Layout.{struct}
use ipc_with_cht.SystemApi.Command.{Cmd, command_number}
use ipc_with_cht.SystemApi.Functions.{Function, endpoint_of}

-- sizeof(stZwsystemIpcHdr): u32FourCC at 0, u32HdrSize at 4, u32PayloadSize at 8, and the 32
-- numbers u16Headers from 12 on: the message's id, the command, and the result.
abbrev pub hdr_size : ℕ
hdr_size = 76

-- sizeof(stZwsystemIpcMsg): the header, and the pointer pu8Payload at 80.
abbrev pub msg_size : ℕ
msg_size = 88

-- MAKEFOURCC('Z', 'W', 'S', 'Y').
abbrev pub fourcc : ℕ
fourcc = b'Z' + b'W' * 2 ^ 8 + b'S' * 2 ^ 16 + b'Y' * 2 ^ 24

-- ZWSYSTEM_IPC_NAME
abbrev pub service_name : Bytes
service_name = codes "zwsystem_service.ipc"

-- What ipc_client_getMsgId leaves in the counter and returns, from the counter's value.
unfoldable pub next_msg_id : ℕ → ℕ
next_msg_id g = let n = (g + 1) % 2 ^ 16 in if n == 0 then n + 1 else n

-- The id in the header: shifted by a bit, and cut to the 16 bits of the parameter.
unfoldable pub wire_id : ℕ → ℕ
wire_id id = id * 2 % 2 ^ 16

-- `zwsystem_ipc_msg_init`, written over what the memory holds.
unfoldable pub msg_init : ℕ → ℕ → Bytes → Bytes
msg_init id cmd m = store_num 80 8 0 (
    store_num 8 4 0
      (store_num 4 4 2 (store_num 14 2 cmd (store_num 12 2 id (store_num 0 4 fourcc m)))))

-- The request's header, with the payload's size, as it is appended.
unfoldable pub request_hdr : Bytes → ℕ → Cmd → ℕ → Bytes
unfolding msg_init
request_hdr stack id cmd size =
    take hdr_size (store_num 8 4 (size % 2 ^ 32) (msg_init (wire_id id) (command_number cmd) stack))

-- The fields of a header that the client looks at.
pub record IpcHdr : Type 0 where
  pub four_cc : ℕ
  pub size_of_hdr : ℕ
  pub payload_size : ℕ
  pub cmd_type : ℕ
  pub result : ℕ

unfoldable pub make_hdr : Option ℕ → Option ℕ → Option ℕ → Option ℕ → Option ℕ → Option IpcHdr
make_hdr (some f) (some h) (some p) (some c) (some r) =
    some record { four_cc = f; size_of_hdr = h; payload_size = p; cmd_type = c; result = r }
make_hdr _ _ _ _ _ = none

-- `none` where the bytes end inside the header.
unfoldable pub read_hdr : Bytes → Option IpcHdr
unfolding make_hdr
read_hdr r = make_hdr (load 0 4 r) (load 4 4 r) (load 8 4 r) (load 14 2 r) (load 16 2 r)

-- The negated return code for a reply with the header, for the command and the size awaited.
unfoldable pub judge_hdr : Cmd → ℕ → IpcHdr → ℕ
judge_hdr cmd n h =
    if (h.four_cc == fourcc) && leb 3 h.size_of_hdr
    then (if (h.result == 0) && ((h.cmd_type == command_number cmd) && (h.payload_size == n))
        then 0
        else 6)
    else 5

judge_read : Cmd → ℕ → Option IpcHdr → Option ℕ
judge_read cmd n none = none
judge_read cmd n (some h) = some (judge_hdr cmd n h)

-- The negated return code after `recv`, from its result and the reply; `none` would be a read
-- outside the reply.
unfoldable pub judge : Cmd → ℕ → Bool → Option Bytes → Option ℕ
unfolding judge_read
judge cmd n false reply = some 5
judge cmd n true none = some 5
judge cmd n true (some r) =
    if ltb (length r) hdr_size then some 5 else judge_read cmd n (read_hdr r)

-- The `memcpy` of the reply to the caller: none, or one from the address that the bytes of the reply
-- have in the place of pu8Payload (`none` where they end before).
pub data Copy : Type 0 where
  not_copied : Copy
  copied_from : Option ℕ → Copy

unfoldable pub copy_reply : Bool → Option ℕ → Option Bytes → Copy
copy_reply true (some zero) (some r) = copied_from (load 80 8 r)
copy_reply _ _ _ = not_copied

-- The calls on a handler, up to the first that fails. The copy of the reply that `recv` made is
-- freed at the end, which the log does not show.
unfoldable pub exchange :
    Nng
    → Bytes
    → Cmd
    → Bytes
    → ℕ
    → Bool
    → RequestHandler
    → Log
    → Option ℕ × Copy × RequestHandler × Log
unfolding judge copy_reply
exchange nng hdr cmd req n wants h log =
    let (done1, h1, log1) = append nng (some hdr) h log in
    let (done2, h2, log2) = append nng (some req) h1 log1 in
    let (done3, h3, log3) = send nng h2 log2 in
    let (done4, reply, h4, log4) = recv nng h3 log3 in
    let rc = judge cmd n done4 reply in
    if done1
    then (if done2
        then (if done3
            then (rc, copy_reply wants rc reply, h4, log4)
            else (some 4, not_copied, h3, log3))
        else (some 3, not_copied, h2, log2))
    else (some 3, not_copied, h1, log1)

-- What a client function returns and leaves: the counter of ids is the program's. Where it copies,
-- it comes to the return only if the copy's source can be read; nothing is known of that address.
pub record Outcome : Type 0 where
  pub rc : Option ℕ
  pub copy : Copy
  pub counter : ℕ
  pub log : Log

-- With the handler, if it could be made; its destructor releases it.
unfoldable pub execute_with :
    Nng → Bytes → Cmd → Bytes → ℕ → Bool → ℕ → Option RequestHandler × Log → Outcome
unfolding exchange
execute_with nng hdr cmd req n wants id (none, log) = record {
  rc = some 2;
  copy = not_copied;
  counter = id;
  log = log;
}
execute_with nng hdr cmd req n wants id (some h, log) =
    let (rc, copy, h', log') = exchange nng hdr cmd req n wants h log in
    record { rc = rc; copy = copy; counter = id; log = (release nng h' log').2 }

-- `ipc_client_executeReqRep`, for a command, the bytes of a request and the size of the reply.
-- `dir` is NNGIPC_DIR_PATH, `stack` what the uninitialised message holds, and `wants` says whether
-- the caller gave a place for the reply.
unfoldable pub execute : Nng → Bytes → Bytes → ℕ → Cmd → Bytes → ℕ → Bool → Log → Outcome
unfolding execute_with request_hdr
execute nng dir stack counter cmd req n wants log =
    let id = next_msg_id counter in
    let hdr = request_hdr stack id cmd (length req) in
    execute_with nng hdr cmd req n wants id (create nng dir (some service_name) log)

-- A client function.
unfoldable pub call : Nng → Bytes → Bytes → ℕ → Function → Bytes → Bool → Log → Outcome
unfolding execute
call nng dir stack counter f req wants log =
    execute nng dir stack counter (endpoint_of f).command req (struct (endpoint_of f).reply).size
      wants log
