-- ===== src/Examples/Client.antt =====
-- The system client at concrete requests and replies.
use ipc_with_cht.Prelude.{◌≡◌, ◌↔◌, refl, true, some, [], ◌∷◌, ◌++◌, replicate}
use ipc_with_cht.Prelude.Bytes.{Bytes, load}
use ipc_with_cht.Nng.{Nng, acquired, disposed}
use ipc_with_cht.EnumTable.{status_event, str2int, int2str, table, fallback_value}
use ipc_with_cht.EnumTable.Search.{has_value}
use ipc_with_cht.EnumTable.Names.{str2int-int2str}
use ipc_with_cht.SystemApi.Command.{set_led, format_sd_card, command_number}
use ipc_with_cht.SystemApi.Functions.{
  camera, ptz, call_set_led, call_set_ptz_home, endpoint_of, camera_endpoint,
}
use ipc_with_cht.SystemApi.Routing.{endpoint_of-Routes, is_ptz_extension}
use ipc_with_cht.SystemClient.{request_hdr, wire_id, next_msg_id, judge, execute, call}
use ipc_with_cht.SystemClient.Wire.{IsRequestHdr, request_hdr-IsRequestHdr, IsAnswer, judge_accepts}
use ipc_with_cht.SystemClient.Exchange.{Completes, call-Completes}
use ipc_with_cht.SystemClient.Codes.{Ends, execute-Ends}
use ipc_with_cht.SystemClient.Listener.{snapshot_event, on_message, on_message_inverted, strncmp}

str2int-int2str_example : str2int status_event (some (int2str status_event 3)) ≡ 5
unfolding has_value table fallback_value
str2int-int2str_example = str2int-int2str status_event 3

endpoint_of-Routes_example : (endpoint_of (ptz call_set_ptz_home)).command ≡ format_sd_card
unfolding is_ptz_extension
endpoint_of-Routes_example = endpoint_of-Routes (ptz call_set_ptz_home)

abbrev stack : Bytes
stack = replicate 88 170

request_hdr-IsRequestHdr_example : IsRequestHdr (request_hdr stack 1 set_led 1) 2 23 1
unfolding wire_id command_number
request_hdr-IsRequestHdr_example = request_hdr-IsRequestHdr stack 1 set_led 1 refl

-- A reply's header: 3 numbers, the id 2, the command _SetLED, the result 0.
abbrev reply_hdr : Bytes
reply_hdr =
    b'Z' ∷ b'W' ∷ b'S' ∷ b'Y' ∷ 3 ∷ 0 ∷ 0 ∷ 0 ∷ 4 ∷ 1 ∷ 0 ∷ 0 ∷ 2 ∷ 0 ∷ 23 ∷ 0 ∷ replicate 60 0

judge_accepts_example :
    (judge set_led 260 true (some reply_hdr) ≡ some 0) ↔ IsAnswer set_led 260 reply_hdr
judge_accepts_example = judge_accepts set_led 260 reply_hdr

abbrev granting : Nng
granting = record { rv = λ log c. 0; body = λ log. reply_hdr }

call-Completes_example :
    Completes
      (request_hdr stack 1 set_led 1 ++ 1 ∷ [])
      []
      0
      (call granting [] stack 0 (camera call_set_led) (1 ∷ []) true [])
unfolding next_msg_id acquired disposed endpoint_of camera_endpoint
call-Completes_example =
    call-Completes granting [] stack 0 (camera call_set_led) (1 ∷ []) true [] 0 refl

execute-Ends_example :
    let o = execute granting [] stack 0 set_led (1 ∷ []) 260 true [] in Ends true o.rc o.copy
execute-Ends_example = execute-Ends granting [] stack 0 set_led (1 ∷ []) 260 true []

-- A message with the prefix STATUS.
abbrev status_message : Bytes
status_message =
    b'S' ∷ b'T' ∷ b'A' ∷ b'T' ∷ b'U' ∷ b'S' ∷ 0 ∷ 0 ∷ b'Z' ∷ b'W' ∷ b'S' ∷ b'Y' ∷ 3 ∷ replicate 80 0

on_message_inverted_example : snapshot_event ≡ snapshot_event
unfolding strncmp on_message load
on_message_inverted_example = on_message_inverted status_message snapshot_event refl
