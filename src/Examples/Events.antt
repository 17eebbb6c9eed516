-- ===== src/Examples/Events.antt =====
-- Events of zwsystem_ipc_event.cpp at concrete bytes.
use ipc_with_cht.Prelude.{
  ℕ, ◌≡◌, refl, true, false, Option, none, some, [], ◌∷◌, ◌++◌, arith, length, replicate,
}
use ipc_with_cht.Prelude.Bytes.{Bytes, load, same_text}
use ipc_with_cht.Prelude.Memory.{c_string}
use ipc_with_cht.Nng.{Nng, Log}
use ipc_with_cht.AioWorker.{recv, process}
use ipc_with_cht.WorkerPool.{create_workers, create_worker, clamp_workers, start_workers}
use ipc_with_cht.SubscribeHandler
use ipc_with_cht.Event.{
  Clock, accepted, event_hdr_size, msg_hdr_size, fourcc, payload_of, check_msg, check_event,
}
use ipc_with_cht.Event.Wire.{event_bytes, published_accepted}
use ipc_with_cht.Event.Bounds.{accepted_sound, check_reads_past}
use ipc_with_cht.Event.Handle.{
  EventHandle, Build, Frame, new, send_event, start_listen, stop_listen,
}
use ipc_with_cht.Event.Handle.Sending.{IsFrame, Delivers, send_event-Delivers}
use ipc_with_cht.Event.Handle.Listening.{
  Defined, InState, Listens, start_listen-Listens, listening_goes_on,
}

abbrev granting : Nng
granting = record { rv = λ log c. 0; body = λ log. [] }

abbrev topic : Bytes
topic = b'r' ∷ b'e' ∷ b'c' ∷ b'.' ∷ []

abbrev noon : Clock
noon = record {
  local_ns = 1770104044000000000;
  mono_ns = 12345;
  date = b'D' ∷ [];
  millis = b'0' ∷ [];
  zone = b'+' ∷ b'0' ∷ b'8' ∷ b'0' ∷ b'0' ∷ [];
}

abbrev frame : Frame
frame = record {
  clock = noon;
  hdr_stack = replicate event_hdr_size 170;
  msg_stack = replicate msg_hdr_size 85;
}

frame-IsFrame : IsFrame frame
frame-IsFrame = record { hdr_room = refl; msg_room = refl }

published : Bytes
published = event_bytes frame.hdr_stack frame.msg_stack topic 3 noon (1 ∷ 2 ∷ [])

published_accepted_example :
    check_event (some topic) (some published) ≡ some (accepted (1 ∷ 2 ∷ []) 2)
unfolding published
published_accepted_example =
    published_accepted frame.hdr_stack frame.msg_stack topic 3 noon (1 ∷ 2 ∷ []) refl refl
      (omega arith) (omega arith) (omega arith)

-- An event with no payload, under the empty topic.
abbrev bare : Bytes
bare =
    replicate 184 0
    ++ (140 ∷ 0 ∷ 0 ∷ 0 ∷ 0 ∷ 0 ∷ 0 ∷ 0 ∷ b'Z' ∷ b'W' ∷ b'S' ∷ b'Y' ∷ replicate 136 0)

accepted_sound_example :
    (c_string bare ≡ some [])
    × (load event_hdr_size 4 bare ≡ some fourcc)
    × ([] ≡ payload_of bare)
    × (◌≡◌ {A = ℕ} 0 0)
    × (length bare ≡ 332)
unfolding check_event check_msg c_string same_text load payload_of
accepted_sound_example = accepted_sound bare [] [] 0 (omega arith) refl

-- The event header alone, announcing no message.
abbrev headless : Bytes
headless = replicate 192 0

check_reads_past_example : check_event (some []) (some headless) ≡ none
unfolding load c_string
check_reads_past_example = check_reads_past headless [] 0 (omega arith) (omega arith) refl refl refl

abbrev build : Build
build = record {
  dir = b'/' ∷ b't' ∷ [];
  publish_name = b'p' ∷ [];
  subscribe_name = b's' ∷ [];
  proxy_mode = false;
}

send_event-Delivers_example :
    Delivers
      (event_bytes frame.hdr_stack frame.msg_stack topic 0 noon (1 ∷ []))
      []
      (send_event granting build frame (some topic) (some (1 ∷ [])) new [])
unfolding new
send_event-Delivers_example =
    send_event-Delivers granting build frame topic 1 [] new [] frame-IsFrame tt

start_listen-Listens_example : Defined (Listens new) (start_listen granting build true 4 new [])
start_listen-Listens_example = start_listen-Listens granting build true 4 new []

-- The handle and the log that a call leaves.
left_by : Option (ℕ × EventHandle × Log) → EventHandle × Log
left_by none = (new, [])
left_by (some (rc, e, log)) = (e, log)

listening : EventHandle × Log
unfolding left_by
listening = left_by (start_listen granting build true 4 new [])

listening_goes_on_example :
    (stop_listen granting listening.0 listening.1 ≡ (2, listening.0, listening.1))
    × InState recv listening.0.sub_sp
    × (start_listen granting build true 2
          (stop_listen granting listening.0 listening.1).1
          (stop_listen granting listening.0 listening.1).2
        ≡ some (2, listening.0, listening.1))
unfolding listening left_by start_listen stop_listen SubscribeHandler.create SubscribeHandler.start
    create_workers create_worker clamp_workers start_workers process new
listening_goes_on_example =
    listening_goes_on granting build true true 4 2 new listening.0 [] listening.1 refl
