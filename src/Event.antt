-- ===== src/Event.antt =====
-- implement/zwipcsystem/zwsystem_ipc_event.cpp, with the wire structs of
-- zwsystem_ipc_event_defined.h: an event is a header with its topic, a message header, and a
-- payload. The structs have the layout of the LP64 ABIs.
pub mod Records
pub mod Topics
pub mod Wire
pub mod Bounds
pub mod Handle
use ipc_with_cht.Prelude.{
  ℕ, ◌+◌, ◌*◌, ◌%◌, ◌^◌, Bool, true, false, Option, none, some, List, [], ◌∷◌, ◌++◌, ◌==◌, ltb,
  length, take, drop, if◌then◌else◌,
}
use ipc_with_cht.Prelude.Bytes.{Bytes, load, same_text}
use ipc_with_cht.Prelude.Memory.{store, store_num, c_string, print_text}

-- sizeof(stZsIpcEventHdr): szTopic at 0, u32SeqId at 32, szUtcString at 36, u64LocalTimestampNs at
-- 168, u64MonoTimestampNs at 176, u32MsgSize at 184.
abbrev pub event_hdr_size : ℕ
event_hdr_size = 192

-- sizeof(stZsIpcMsgHdr): u32FourCC at 0, u32HdrSize at 4, u8aHdr at 8, u32PayloadSize at 136.
abbrev pub msg_hdr_size : ℕ
msg_hdr_size = 140

abbrev pub topic_len : ℕ
topic_len = 32

abbrev pub string_len : ℕ
string_len = 128

-- MAKEFOURCC('Z', 'W', 'S', 'Y').
abbrev pub fourcc : ℕ
fourcc = b'Z' + b'W' * 2 ^ 8 + b'S' * 2 ^ 16 + b'Y' * 2 ^ 24

abbrev pub u32 : ℕ → ℕ
u32 n = n % 2 ^ 32

-- What the two clocks and `strftime` give: nanoseconds, and the texts of "%Y-%m-%dT%H:%M:%S", of
-- the milliseconds, and of "%z".
pub record Clock : Type 0 where
  pub local_ns : ℕ
  pub mono_ns : ℕ
  pub date : Bytes
  pub millis : Bytes
  pub zone : Bytes

-- +0800 becomes +08:00.
unfoldable pub zone_text : Bytes → Bytes
zone_text z = if length z == 5 then take 3 z ++ b':' ∷ drop 3 z else z

unfoldable pub utc_text : Clock → Bytes
unfolding zone_text
utc_text c = c.date ++ (b'.' ∷ []) ++ c.millis ++ (b'Z' ∷ b' ' ∷ []) ++ zone_text c.zone

abbrev pub topic_text : Option Bytes → Bytes
topic_text none = []
topic_text (some t) = t

-- The event header, written over whatever the stack holds.
unfoldable pub event_hdr : Bytes → Option Bytes → ℕ → Clock → ℕ → Bytes
unfolding print_text utc_text
event_hdr stack topic seq c data_size = store_num 184 4 (u32 (msg_hdr_size + data_size)) (
    store 36 (print_text string_len (utc_text c)) (
      store_num 176 8 (c.mono_ns % 2 ^ 64) (
        store_num 168 8 (c.local_ns % 2 ^ 64)
          (store_num 32 4 seq (store 0 (print_text topic_len (topic_text topic)) stack)))))

unfoldable pub msg_hdr : Bytes → ℕ → Bytes
msg_hdr stack data_size =
    store_num 136 4 (u32 data_size)
      (store 8 (0 ∷ 0 ∷ 0 ∷ []) (store_num 4 4 3 (store_num 0 4 fourcc stack)))

-- What `zs_ipc_checkEventWithTopic` gives: the payload with its size, or the negated return code.
pub data Checked : Type 0 where
  accepted : Bytes → ℕ → Checked
  rejected : ℕ → Checked

-- What lies behind the two headers.
unfoldable pub payload_of : Bytes → Bytes
payload_of msg = drop (event_hdr_size + msg_hdr_size) msg

-- `none` is a read behind the end of the received data: the argument is what was read.
check_fourcc : Option ℕ → Bytes → ℕ → Option Checked
check_fourcc none msg payload_size = none
check_fourcc (some cc) msg payload_size =
    if cc == fourcc then some (accepted (payload_of msg) payload_size) else some (rejected 3)

check_payload_size : Option ℕ → Bytes → Option Checked
check_payload_size none msg = none
check_payload_size (some payload_size) msg =
    if length msg == u32 (payload_size + event_hdr_size + msg_hdr_size)
    then check_fourcc (load event_hdr_size 4 msg) msg payload_size
    else some (rejected 3)

-- The part on the message header.
unfoldable pub check_msg : Bytes → Option Checked
unfolding check_fourcc check_payload_size
check_msg msg = check_payload_size (load (event_hdr_size + 136) 4 msg) msg

-- `std::string(pEventHdr->szTopic)` reads up to the first 0, where it may be.
check_topic : Option Bytes → Bytes → Bytes → Option Checked
check_topic none topic msg = none
check_topic (some name) topic msg =
    if same_text name topic then check_msg msg else some (rejected 2)

check_msg_size : Option ℕ → Bytes → Bytes → Option Checked
check_msg_size none topic msg = none
check_msg_size (some msg_size) topic msg =
    if length msg == u32 (msg_size + event_hdr_size)
    then check_topic (c_string msg) topic msg
    else some (rejected 2)

unfoldable pub check_event : Option Bytes → Option Bytes → Option Checked
unfolding check_topic check_msg_size
check_event topic none = some (rejected 1)
check_event none (some msg) = some (rejected 1)
check_event (some topic) (some msg) =
    if ltb (length msg) event_hdr_size
    then some (rejected 2)
    else check_msg_size (load 184 4 msg) topic msg
