-- ===== src/P2pAgent/Service.antt =====
-- implement/cht_p2pagent/system_service.cpp: the callback that answers the camera agent's client.
-- What it prints is left out.
use ipc_with_cht.Prelude.{
  ℕ, ◌-◌, ◌+◌, ◌%◌, ◌^◌, Bool, ◌&&◌, Option, none, some, ◌++◌, ◌==◌, leb, length, take, drop,
  if◌then◌else◌,
}
use ipc_with_cht.Prelude.Bytes.{Bytes, load}
use ipc_with_cht.Prelude.Memory.{store, store_num, c_string, print_text}
use ipc_with_cht.Prelude.Text.{codes}
use ipc_with_cht.SystemClient.{hdr_size}
use ipc_with_cht.P2pAgent.{cht_fourcc, cht_command_number, cht_get_cam_status_by_id}
use ipc_with_cht.P2pAgent.Client.{status_req_size, status_rep_size}

-- snprintf into a text of 256 bytes at an offset.
abbrev pub put : ℕ → Bytes → Bytes → Bytes
put o t rep = store o (print_text 256 t) rep

-- The record stCamStatusByIdRep, filled in from the texts and the number of the request; `rep` is
-- what its memory holds before.
unfoldable pub fill_status : Bytes → Bytes → ℕ → Bytes → Bytes → Bytes
fill_status tenant net sid cam rep =
    let r1 = put 260 net (put 4 tenant (store_num 0 4 0 rep)) in
    let r2 = put 520 cam (store_num 516 4 sid r1) in
    let r3 = put 1032 (codes "v0.2.1") (put 776 (codes "v0.2.1") r2) in
    let r4 = store_num 1296 4 1 (store_num 1292 4 10 (store_num 1288 4 0 r3)) in
    let r5 = put 1304 (codes "abc") (store_num 1300 4 0 r4) in
    let r6 = put 1816 (codes "abc") (put 1560 (codes "abc") r5) in
    let r7 = put 2328 (codes "1002002") (put 2072 (codes "ok") r6) in
    let r8 = put 2840 (codes "abdsavd") (put 2584 (codes "1002002") r7) in
    store_num 3096 4 (2 ^ 32 - 32) r8

abbrev pub filled : Option Bytes → Option Bytes → Option ℕ → Option Bytes → Bytes → Option Bytes
filled (some tenant) (some net) (some sid) (some cam) rep =
    some (fill_status tenant net sid cam rep)
filled _ _ _ _ rep = none

-- The reply's record; `none`: the request's fields are read outside the bytes that came.
unfoldable pub answer_status : Bytes → Bytes → Option Bytes
unfolding fill_status
answer_status rep req =
    filled (c_string (drop (hdr_size + 0) req)) (c_string (drop (hdr_size + 256) req))
      (load (hdr_size + 512) 4 req) (c_string (drop (hdr_size + 516) req)) rep

-- The request's header, turned into the reply's in place.
unfoldable pub answer_hdr : ℕ → Bytes → Bytes
answer_hdr id req =
    store_num 4 4 3 (
      store_num 16 2 0
        (store_num 8 4 status_rep_size (store_num 12 2 (id % 2) (take hdr_size req))))

-- `malloc` granted the reply or not.
unfoldable pub respond : Bool → ℕ → Bytes → Option Bytes → Option (Option Bytes)
unfolding answer_hdr
respond granted id req none = none
respond granted id req (some rep) =
    if granted then some (some (answer_hdr id req ++ rep)) else some none

unfoldable pub handle :
    Bool → Bytes → Option Bytes → Option ℕ → Option ℕ → Option ℕ → Option ℕ → Option (Option Bytes)
unfolding respond
handle granted req rep (some f) (some id) (some cmd) (some size) =
    if f == cht_fourcc
    then (if (cmd == cht_command_number cht_get_cam_status_by_id) && (size == status_req_size)
        then respond granted id req rep
        else some none)
    else some none
handle granted req rep _ _ _ _ = none

-- The reply to a request, if there is one; `none` is a read outside the request.
unfoldable pub request_callback : Bool → Bytes → Bytes → Option (Option Bytes)
unfolding handle answer_status
request_callback granted rep req =
    if leb (length req) hdr_size
    then some none
    else handle granted req (answer_status rep req) (load 0 4 req) (load 12 2 req) (load 14 2 req)
        (load 8 4 req)
