-- ===== src/Examples/Agent.antt =====
-- A request to the camera agent's service, and its reply.
use ipc_with_cht.Prelude.{◌+◌, ◌≡◌, refl, true, some, [], ◌∷◌, ◌++◌, length, replicate}
use ipc_with_cht.Prelude.Bytes.{Bytes, load, decode}
use ipc_with_cht.Prelude.Memory.{c_string}
use ipc_with_cht.SystemClient.{hdr_size}
use ipc_with_cht.P2pAgent.{cht_command_number}
use ipc_with_cht.P2pAgent.Client.{status_rep_size, cht_judge}
use ipc_with_cht.P2pAgent.Service.{
  fill_status, answer_status, answer_hdr, respond, handle, request_callback,
}
use ipc_with_cht.P2pAgent.Exchange.{request_callback_accepted}

-- Id 2, command 0, and a record of empty texts.
abbrev request : Bytes
request =
    b'C' ∷ b'H' ∷ b'T' ∷ b'1' ∷ 2 ∷ 0 ∷ 0 ∷ 0 ∷ 4 ∷ 4 ∷ 0 ∷ 0 ∷ 2 ∷ 0 ∷ 0 ∷ 0 ∷ replicate 1088 0

abbrev memory : Bytes
memory = replicate 3100 7

abbrev reply : Bytes
reply = answer_hdr 2 request ++ fill_status [] [] 0 [] memory

request_callback_accepted_example :
    (length reply ≡ hdr_size + status_rep_size) × (cht_judge true (some reply) ≡ some 0)
unfolding request_callback handle respond answer_status load decode c_string cht_command_number
request_callback_accepted_example = request_callback_accepted true memory request reply refl refl
