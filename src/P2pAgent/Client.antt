-- ===== src/P2pAgent/Client.antt =====
-- implement/cht_p2pagent/cht_ipc_client.cpp: the one function of the camera agent's client. Its
-- message has the layout of the system client's, with another code.
use ipc_with_cht.Prelude.{
  ℕ, Bool, true, false, ◌&&◌, Option, none, some, ◌==◌, ltb, leb, length, take, if◌then◌else◌,
}
use ipc_with_cht.Prelude.Bytes.{Bytes}
use ipc_with_cht.Prelude.Memory.{store_num}
use ipc_with_cht.Prelude.Text.{codes}
use ipc_with_cht.Nng.{Nng, Log}
use ipc_with_cht.RequestHandler.{RequestHandler, create, append, send, recv, release}
use ipc_with_cht.SystemClient.{
  hdr_size, IpcHdr, read_hdr, next_msg_id, wire_id, Copy, not_copied, copy_reply, Outcome,
}
use ipc_with_cht.P2pAgent.{cht_get_cam_status_by_id, cht_command_number, cht_fourcc, cht_msg_init}

-- CHT_IPC_NAME
abbrev pub cht_service_name : Bytes
cht_service_name = codes "system_service.ipc"

-- sizeof(stCamStatusByIdReq) and sizeof(stCamStatusByIdRep).
abbrev pub status_req_size : ℕ
status_req_size = 1028

abbrev pub status_rep_size : ℕ
status_rep_size = 3100

-- The request's header as it is appended.
unfoldable pub cht_request_hdr : Bytes → ℕ → Bytes
unfolding cht_msg_init
cht_request_hdr stack id = take hdr_size (
    store_num 8 4 status_req_size
      (cht_msg_init (wire_id id) (cht_command_number cht_get_cam_status_by_id) stack))

-- The negated return code for a reply with the header.
unfoldable pub cht_judge_hdr : IpcHdr → ℕ
cht_judge_hdr h =
    if (h.four_cc == cht_fourcc) && leb 3 h.size_of_hdr
    then (if (h.result == 0)
          && ((h.cmd_type == cht_command_number cht_get_cam_status_by_id)
              && (h.payload_size == status_rep_size))
        then 0
        else 6)
    else 5

unfoldable pub cht_judge_read : Option IpcHdr → Option ℕ
unfolding cht_judge_hdr
cht_judge_read none = none
cht_judge_read (some h) = some (cht_judge_hdr h)

-- The negated return code after `recv`; `none` would be a read outside the reply.
unfoldable pub cht_judge : Bool → Option Bytes → Option ℕ
unfolding cht_judge_read
cht_judge false reply = some 5
cht_judge true none = some 5
cht_judge true (some r) = if ltb (length r) hdr_size then some 5 else cht_judge_read (read_hdr r)

unfoldable pub status_exchange :
    Nng → Bytes → Bytes → Bool → RequestHandler → Log → Option ℕ × Copy × RequestHandler × Log
unfolding cht_judge copy_reply
status_exchange nng hdr req wants h log =
    let (done1, h1, log1) = append nng (some hdr) h log in
    let (done2, h2, log2) = append nng (some req) h1 log1 in
    let (done3, h3, log3) = send nng h2 log2 in
    let (done4, reply, h4, log4) = recv nng h3 log3 in
    let rc = cht_judge done4 reply in
    if done1
    then (if done2
        then (if done3
            then (rc, copy_reply wants rc reply, h4, log4)
            else (some 4, not_copied, h3, log3))
        else (some 3, not_copied, h2, log2))
    else (some 3, not_copied, h1, log1)

unfoldable pub status_with : Nng → Bytes → Bytes → Bool → ℕ → Option RequestHandler × Log → Outcome
unfolding status_exchange
status_with nng hdr req wants id (none, log) = record {
  rc = some 2;
  copy = not_copied;
  counter = id;
  log = log;
}
status_with nng hdr req wants id (some h, log) =
    let (rc, copy, h', log') = status_exchange nng hdr req wants h log in
    record { rc = rc; copy = copy; counter = id; log = (release nng h' log').2 }

-- `cht_ipc_getCamStatusById`; a null request takes no id.
unfoldable pub get_cam_status_by_id : Nng → Bytes → Bytes → ℕ → Option Bytes → Bool → Log → Outcome
unfolding status_with cht_request_hdr next_msg_id
get_cam_status_by_id nng dir stack counter none wants log = record {
  rc = some 1;
  copy = not_copied;
  counter = counter;
  log = log;
}
get_cam_status_by_id nng dir stack counter (some req) wants log =
    let id = next_msg_id counter in
    status_with nng (cht_request_hdr stack id) req wants id
      (create nng dir (some cht_service_name) log)
