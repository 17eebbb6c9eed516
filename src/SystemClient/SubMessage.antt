-- ===== src/SystemClient/SubMessage.antt =====
-- The messages of the system's events: zwsystem_sub_msg_init and its like in
-- implement/zwsystemInterface/zwsystem_ipc_defined.h.
use ipc_with_cht.Prelude.{ℕ, ◌≡◌, ◌∙◌, Option, none, some, length, take, drop, arith}
use ipc_with_cht.Prelude.Bytes.{Bytes, load}
use ipc_with_cht.Prelude.Memory.{
  store, store_num, length-store, length-store_num, load-store_num, load-store_num_before,
  load_within,
}
use ipc_with_cht.SystemClient.{fourcc}
use ipc_with_cht.SystemClient.Listener.{prefix_len, on_message}

-- sizeof(stZwsystemSubMsg): the prefix at 0, the header at 8, and the pointer pu8Payload at 88.
abbrev pub sub_msg_size : ℕ
sub_msg_size = 96

-- The message with its prefix and its header, written over what the memory holds. A null message
-- or prefix is `none`.
unfoldable pub sub_msg_init : Option Bytes → Option Bytes → ℕ → ℕ → Option Bytes
sub_msg_init none prefix id cmd = none
sub_msg_init (some m) none id cmd = some m
sub_msg_init (some m) (some prefix) id cmd = some (
    store_num 88 8 0 (
      store_num 16 4 0 (
        store_num 12 4 2 (
          store_num 22 2 cmd
            (store_num 20 2 id (store_num 8 4 fourcc (store 0 (take prefix_len prefix) m)))))))

unfoldable pub sub_msg_free : Option Bytes → Option Bytes
sub_msg_free none = none
sub_msg_free (some m) =
    some (store_num 16 4 0 (store_num 12 4 0 (store_num 8 4 fourcc (store_num 0 1 0 m))))

-- Where the event's prefix, its header and its payload's pointer are read.
unfoldable pub event_prefix : Option Bytes → Option Bytes
event_prefix none = none
event_prefix (some m) = some m

unfoldable pub ipc_hdr : Option Bytes → Option Bytes
ipc_hdr none = none
ipc_hdr (some m) = some (drop 8 m)

module _ (m prefix : Bytes) (id cmd : ℕ) (room : length m ≡ sub_msg_size) where
  begun : Bytes
  begun = store_num 20 2 id (store_num 8 4 fourcc (store 0 (take prefix_len prefix) m))

  length-begun : length begun ≡ sub_msg_size
  unfolding begun
  length-begun =
      length-store_num 20 2 id _
      ∙ length-store_num 8 4 fourcc _
      ∙ length-store 0 (take prefix_len prefix) m
      ∙ room

  finished : Bytes
  unfolding begun
  finished = store_num 88 8 0 (store_num 16 4 0 (store_num 12 4 2 (store_num 22 2 cmd begun)))

  length-finished : length finished ≡ sub_msg_size
  unfolding finished
  length-finished =
      length-store_num 88 8 0 _
      ∙ length-store_num 16 4 0 _
      ∙ length-store_num 12 4 2 _
      ∙ length-store_num 22 2 cmd _
      ∙ length-begun

  fourcc-finished : load 8 4 finished ≡ some fourcc
  unfolding finished begun
  fourcc-finished =
      load-store_num_before 88 8 0 8 4 _ (omega arith)
      ∙ load-store_num_before 16 4 0 8 4 _ (omega arith)
      ∙ load-store_num_before 12 4 2 8 4 _ (omega arith)
      ∙ load-store_num_before 22 2 cmd 8 4 _ (omega arith)
      ∙ load-store_num_before 20 2 id 8 4 _ (omega arith)
      ∙ load-store_num 8 4 fourcc (store 0 (take prefix_len prefix) m)
          (omega (arith, length-store 0 (take prefix_len prefix) m, room)) (omega arith)

  numbers-finished : load 12 4 finished ≡ some 2
  unfolding finished
  numbers-finished =
      load-store_num_before 88 8 0 12 4 _ (omega arith)
      ∙ load-store_num_before 16 4 0 12 4 _ (omega arith)
      ∙ load-store_num 12 4 2 (store_num 22 2 cmd begun)
          (omega (arith, length-store_num 22 2 cmd begun, length-begun)) (omega arith)

few_numbers :
    (d : Bytes)
    → length d ≡ sub_msg_size
    → load 8 4 d ≡ some fourcc
    → load 12 4 d ≡ some 2
    → on_message (some d) ≡ some none
unfolding on_message
few_numbers d room a b = ground (arith, load_within 24 2 d)

-- A message as `zwsystem_sub_msg_init` leaves it, for any memory of its size, any prefix, id and
-- command, is passed over by the listener: it announces two numbers behind the sizes, and the
-- listener asks for three. A publisher has to set the result and the count first.
pub initialised_passed_over :
    (m prefix : Bytes) (id cmd : ℕ)
    → length m ≡ sub_msg_size
    → on_message (sub_msg_init (some m) (some prefix) id cmd) ≡ some none
unfolding sub_msg_init finished begun
initialised_passed_over m prefix id cmd room =
    few_numbers (finished m prefix id cmd room) (length-finished m prefix id cmd room)
      (fourcc-finished m prefix id cmd room) (numbers-finished m prefix id cmd room)
