-- ===== src/Event/Bounds.antt =====
-- What the receiver's check of zwsystem_ipc_event.cpp guarantees of foreign data, and where it
-- reads too far.
use ipc_with_cht.Prelude.{
  ℕ, ◌+◌, ◌≤◌, ◌<◌, ◌≡◌, ◌≢◌, refl, ap, ◌∙◌, Option, none, some, arith, length, length-drop,
}
use ipc_with_cht.Prelude.Bytes.{Bytes, load, same_text_iff}
use ipc_with_cht.Prelude.Memory.{AreBytes, load-lt, load_past, load_inside, load_within, c_string}
use ipc_with_cht.Event.{
  event_hdr_size, msg_hdr_size, fourcc, u32, accepted, payload_of, check_fourcc, check_payload_size,
  check_topic, check_msg_size, check_msg, check_event,
}

check_fourcc_sound :
    (read : Option ℕ) (m payload : Bytes) (k n : ℕ)
    → check_fourcc read m k ≡ some (accepted payload n)
    → (read ≡ some fourcc) × (k ≡ n) × (payload ≡ payload_of m)
unfolding check_fourcc
check_fourcc_sound none m payload k n e = cc
check_fourcc_sound (some cc') m payload k n e = ground arith

check_payload_size_sound :
    (read : Option ℕ) (m payload : Bytes) (n : ℕ)
    → check_payload_size read m ≡ some (accepted payload n)
    → (read ≡ some n)
      × (length m ≡ u32 (n + event_hdr_size + msg_hdr_size))
      × (load event_hdr_size 4 m ≡ some fourcc)
      × (payload ≡ payload_of m)
unfolding check_payload_size
check_payload_size_sound none m payload n e = cc
check_payload_size_sound (some k) m payload n e =
    ground (arith, check_fourcc_sound (load event_hdr_size 4 m) m payload k n)

check_topic_sound :
    (read : Option Bytes) (wanted m payload : Bytes) (n : ℕ)
    → check_topic read wanted m ≡ some (accepted payload n)
    → (read ≡ some wanted) × (check_msg m ≡ some (accepted payload n))
unfolding check_topic
check_topic_sound none wanted m payload n e = cc
check_topic_sound (some name) wanted m payload n e = ground (arith, same_text_iff name wanted)

check_msg_size_sound :
    (read : Option ℕ) (wanted m payload : Bytes) (n : ℕ)
    → check_msg_size read wanted m ≡ some (accepted payload n)
    → (c_string m ≡ some wanted) × (check_msg m ≡ some (accepted payload n))
unfolding check_msg_size
check_msg_size_sound none wanted m payload n e = cc
check_msg_size_sound (some k) wanted m payload n e =
    ground (arith, check_topic_sound (c_string m) wanted m payload n)

check_event_sound :
    (m wanted payload : Bytes) (n : ℕ)
    → check_event (some wanted) (some m) ≡ some (accepted payload n)
    → (event_hdr_size ≤ length m)
      × (c_string m ≡ some wanted)
      × (check_msg m ≡ some (accepted payload n))
unfolding check_event
check_event_sound m wanted payload n e =
    ground (arith, check_msg_size_sound (load 184 4 m) wanted m payload n)

-- Whatever data arrives: if the check accepts it for a topic, its bytes from the start, where the
-- topic field lies, up to the first 0 are the topic (a long one may run past the field), it carries
-- the four characters, and the payload that the check gives is all of the data behind the two
-- headers, with exactly its size.
pub accepted_sound :
    (m wanted payload : Bytes) (n : ℕ)
    → AreBytes m
    → check_event (some wanted) (some m) ≡ some (accepted payload n)
    → (c_string m ≡ some wanted)
      × (load event_hdr_size 4 m ≡ some fourcc)
      × (payload ≡ payload_of m)
      × (length payload ≡ n)
      × (length m ≡ event_hdr_size + msg_hdr_size + n)
unfolding check_msg payload_of
accepted_sound m wanted payload n b e =
    let (long, topic, rest) = check_event_sound m wanted payload n e in
    let (read, size, cc', tail) =
      check_payload_size_sound (load (event_hdr_size + 136) 4 m) m payload n rest in
    let small = load-lt (event_hdr_size + 136) 4 n m b read in
    let inside : event_hdr_size + msg_hdr_size ≤ length m =
      load_inside (event_hdr_size + 136) 3 n m read in
    let total : length m ≡ event_hdr_size + msg_hdr_size + n = omega arith in
    (
      topic,
      cc',
      tail,
      ap length tail ∙ omega (arith, length-drop (event_hdr_size + msg_hdr_size) m),
      total,
    )

-- Data that ends inside the message header, with a size and a topic in its event header that fit,
-- make the check read behind the end of the data.
pub check_reads_past :
    (m topic : Bytes) (s : ℕ)
    → event_hdr_size ≤ length m
    → length m < event_hdr_size + msg_hdr_size
    → load 184 4 m ≡ some s
    → length m ≡ u32 (s + event_hdr_size)
    → c_string m ≡ some topic
    → check_event (some topic) (some m) ≡ none
unfolding check_event check_msg_size check_topic check_msg
check_reads_past m topic s long short size total name =
    let gone = load_past (event_hdr_size + 136) 3 m short in
    let same = (same_text_iff topic topic).1 refl in ground (arith, same)

check_msg_defined : (m : Bytes) → event_hdr_size + msg_hdr_size ≤ length m → check_msg m ≢ none
unfolding check_msg check_payload_size check_fourcc
check_msg_defined m h e =
    let size = load_within (event_hdr_size + 136) 4 m h in
    let cc' = load_within event_hdr_size 4 m (omega arith) in ground (arith, size, cc')

-- Data that hold both headers, with a topic field that ends in a 0, are checked within bounds.
pub check_within :
    (m wanted name : Bytes)
    → event_hdr_size + msg_hdr_size ≤ length m
    → c_string m ≡ some name
    → check_event (some wanted) (some m) ≢ none
unfolding check_event check_msg_size check_topic
check_within m wanted name h t e =
    let size = load_within 184 4 m (omega arith) in ground (arith, size, check_msg_defined m h)
