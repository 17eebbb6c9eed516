-- ===== src/Event/Wire.antt =====
-- What the bytes of an event carry: the receiver's check against the sender's layout.
use ipc_with_cht.Prelude.{
  ℕ, ◌+◌, ◌%◌, ◌^◌, ◌≤◌, ◌<◌, ◌≡◌, ap, ◌∙◌, some, ◌++◌, arith, length, length-append, take, drop,
  drop-append, take-length, if◌then◌else◌,
}
use ipc_with_cht.Prelude.Bytes.{Bytes, load, same_text, same_text_iff}
use ipc_with_cht.Prelude.Memory.{
  c_string, print_text, length-store, length-store_num, load-store_num, load-store_num_before,
  load-store_before, Starts-store_num, load-append_left, load-append_right, IsText,
  Starts-store_self, Starts-store, c_string-Starts, length-print_text, drop-append_add,
}
use ipc_with_cht.Event.{
  event_hdr_size, msg_hdr_size, topic_len, string_len, fourcc, u32, Clock, utc_text, event_hdr,
  msg_hdr, accepted, rejected, payload_of, check_msg, check_event,
}

module _ (stack : Bytes) (topic : Bytes) (seq : ℕ) (c : Clock) (n : ℕ) where
  pub length-event_hdr : length (event_hdr stack (some topic) seq c n) ≡ length stack
  unfolding event_hdr
  length-event_hdr = simp (length-store, length-store_num)

  msg_size-event_hdr :
      length stack ≡ event_hdr_size
      → load 184 4 (event_hdr stack (some topic) seq c n) ≡ some (u32 (msg_hdr_size + n))
  unfolding event_hdr
  msg_size-event_hdr h =
      load-store_num 184 4 _ _ (simp (length-store, length-store_num, h) (omega arith))
        (omega arith)

  c_string-event_hdr :
      (rest : Bytes)
      → length stack ≡ event_hdr_size
      → IsText topic
      → c_string (event_hdr stack (some topic) seq c n ++ rest) ≡ some (take 31 topic)
  unfolding event_hdr
  c_string-event_hdr rest h t =
      let k = length-print_text topic_len topic (omega arith) in
      let named = Starts-store_self topic_len topic stack (omega (arith, k, h)) in
      let s1 = Starts-store_num topic_len 32 4 seq topic _ (omega (arith, k)) named in
      let s2 =
        Starts-store_num topic_len 168 8 (c.local_ns % 2 ^ 64) topic _ (omega (arith, k)) s1 in
      let s3 =
        Starts-store_num topic_len 176 8 (c.mono_ns % 2 ^ 64) topic _ (omega (arith, k)) s2 in
      let s4 =
        Starts-store topic_len 36 topic (print_text string_len (utc_text c)) _ (omega (arith, k))
          s3 in
      c_string-Starts topic_len topic _ rest t
        (Starts-store_num topic_len 184 4 (u32 (msg_hdr_size + n)) topic _ (omega (arith, k)) s4)

module _ (stack : Bytes) (n : ℕ) where
  pub length-msg_hdr : length (msg_hdr stack n) ≡ length stack
  unfolding msg_hdr
  length-msg_hdr = simp (length-store, length-store_num)

  payload_size-msg_hdr : length stack ≡ msg_hdr_size → load 136 4 (msg_hdr stack n) ≡ some (u32 n)
  unfolding msg_hdr
  payload_size-msg_hdr h =
      load-store_num 136 4 _ _ (simp (length-store, length-store_num, h) (omega arith))
        (omega arith)

  fourcc-msg_hdr : length stack ≡ msg_hdr_size → load 0 4 (msg_hdr stack n) ≡ some fourcc
  unfolding msg_hdr
  fourcc-msg_hdr h =
      load-store_num_before 136 4 _ 0 4 _ (omega arith)
      ∙ load-store_before 8 0 4 _ _ (omega arith)
      ∙ load-store_num_before 4 4 3 0 4 _ (omega arith)
      ∙ load-store_num 0 4 fourcc stack (omega (arith, h)) (omega arith)

check_msg_accepts :
    (m : Bytes) (size : ℕ)
    → load (event_hdr_size + 136) 4 m ≡ some size
    → length m ≡ u32 (size + event_hdr_size + msg_hdr_size)
    → load event_hdr_size 4 m ≡ some fourcc
    → check_msg m ≡ some (accepted (payload_of m) size)
unfolding check_msg
check_msg_accepts m size a b c = ground arith

check_event_sized :
    (m wanted name : Bytes) (size : ℕ)
    → event_hdr_size ≤ length m
    → load 184 4 m ≡ some size
    → length m ≡ u32 (size + event_hdr_size)
    → c_string m ≡ some name
    → check_event (some wanted) (some m)
      ≡ (if same_text name wanted then check_msg m else some (rejected 2))
unfolding check_event
check_event_sized m wanted name size a b c d = ground arith

-- The bytes that one event puts into a message.
unfoldable pub event_bytes : Bytes → Bytes → Bytes → ℕ → Clock → Bytes → Bytes
event_bytes stack stack' topic seq c payload =
    event_hdr stack (some topic) seq c (length payload)
    ++ (msg_hdr stack' (length payload) ++ payload)

module _ (stack stack' topic : Bytes) (seq : ℕ) (c : Clock) (payload : Bytes)
    (h : length stack ≡ event_hdr_size) (h' : length stack' ≡ msg_hdr_size) (t : IsText topic)
    (fits : length payload + event_hdr_size + msg_hdr_size < 2 ^ 32) where
  length-event_bytes :
      length (event_bytes stack stack' topic seq c payload)
      ≡ event_hdr_size + (msg_hdr_size + length payload)
  unfolding event_bytes
  length-event_bytes = omega (
    arith,
    h,
    h',
    length-append (event_hdr stack (some topic) seq c (length payload))
        (msg_hdr stack' (length payload) ++ payload),
    length-append (msg_hdr stack' (length payload)) payload,
    length-event_hdr stack topic seq c (length payload),
    length-msg_hdr stack' (length payload),
  )

  load-event_bytes_hdr :
      load 184 4 (event_bytes stack stack' topic seq c payload)
      ≡ some (u32 (msg_hdr_size + length payload))
  unfolding event_bytes
  load-event_bytes_hdr =
      load-append_left 184 4 (event_hdr stack (some topic) seq c (length payload)) _
        (omega (arith, h, length-event_hdr stack topic seq c (length payload)))
      ∙ msg_size-event_hdr stack topic seq c (length payload) h

  load-event_bytes_msg :
      (o : ℕ)
      → o + 4 ≤ msg_hdr_size
      → load (event_hdr_size + o) 4 (event_bytes stack stack' topic seq c payload)
        ≡ load o 4 (msg_hdr stack' (length payload))
  unfolding event_bytes
  load-event_bytes_msg o k =
      load-append_right event_hdr_size o 4 (event_hdr stack (some topic) seq c (length payload)) _
        (length-event_hdr stack topic seq c (length payload) ∙ h)
      ∙ load-append_left o 4 (msg_hdr stack' (length payload)) payload
          (omega (arith, h', length-msg_hdr stack' (length payload)))

  payload_of-event_bytes : payload_of (event_bytes stack stack' topic seq c payload) ≡ payload
  unfolding event_bytes payload_of
  payload_of-event_bytes =
      let hdr = event_hdr stack (some topic) seq c (length payload) in
      let msg = msg_hdr stack' (length payload) in
      let e : event_hdr_size + msg_hdr_size ≡ length hdr + length msg = omega (
        arith,
        h,
        h',
        length-event_hdr stack topic seq c (length payload),
        length-msg_hdr stack' (length payload),
      ) in
      ap (λ k. drop k (hdr ++ (msg ++ payload))) e
      ∙ drop-append_add hdr (msg ++ payload) (length msg)
      ∙ drop-append msg payload

  payload_size-event_bytes :
      load (event_hdr_size + 136) 4 (event_bytes stack stack' topic seq c payload)
      ≡ some (length payload)
  payload_size-event_bytes =
      load-event_bytes_msg 136 (omega arith)
      ∙ payload_size-msg_hdr stack' (length payload) h'
      ∙ ap some (omega arith)

  fourcc-event_bytes :
      load (event_hdr_size + 0) 4 (event_bytes stack stack' topic seq c payload) ≡ some fourcc
  fourcc-event_bytes =
      load-event_bytes_msg 0 (omega arith) ∙ fourcc-msg_hdr stack' (length payload) h'

  check_msg-event_bytes :
      check_msg (event_bytes stack stack' topic seq c payload)
      ≡ some (accepted payload (length payload))
  check_msg-event_bytes =
      check_msg_accepts (event_bytes stack stack' topic seq c payload) (length payload)
        payload_size-event_bytes (omega (arith, length-event_bytes)) fourcc-event_bytes
      ∙ ap (λ p. some (accepted p (length payload))) payload_of-event_bytes

  c_string-event_bytes :
      c_string (event_bytes stack stack' topic seq c payload) ≡ some (take 31 topic)
  unfolding event_bytes
  c_string-event_bytes = c_string-event_hdr stack topic seq c (length payload) _ h t

  -- The receiver's check of an event against a topic: it is passed exactly if the topic is that of
  -- the event, cut to 31 bytes, and it then gives the sender's payload and its size.
  pub check_event-event_bytes :
      (wanted : Bytes)
      → check_event (some wanted) (some (event_bytes stack stack' topic seq c payload)) ≡ (
          if same_text (take 31 topic) wanted
          then some (accepted payload (length payload))
          else some (rejected 2))
  check_event-event_bytes wanted =
      check_event_sized (event_bytes stack stack' topic seq c payload) wanted (take 31 topic)
        (u32 (msg_hdr_size + length payload)) (omega (arith, length-event_bytes))
        load-event_bytes_hdr (omega (arith, length-event_bytes)) c_string-event_bytes
      ∙ ap (λ r. if same_text (take 31 topic) wanted then r else some (rejected 2))
          check_msg-event_bytes

-- An event that was published on a topic of at most 31 bytes is accepted by a receiver that asks
-- for the topic, with the payload as it was sent, whatever the stack held where the headers were
-- built. The payload's size has to keep the whole message below 4 GiB.
pub published_accepted :
    (stack stack' topic : Bytes) (seq : ℕ) (c : Clock) (payload : Bytes)
    → length stack ≡ event_hdr_size
    → length stack' ≡ msg_hdr_size
    → IsText topic
    → length payload + event_hdr_size + msg_hdr_size < 2 ^ 32
    → length topic < topic_len
    → check_event (some topic) (some (event_bytes stack stack' topic seq c payload))
      ≡ some (accepted payload (length payload))
published_accepted stack stack' topic seq c payload h h' t fits short =
    let same = (same_text_iff (take 31 topic) topic).1 (take-length 31 topic (omega arith)) in
    check_event-event_bytes stack stack' topic seq c payload h h' t fits topic ∙ rw same
