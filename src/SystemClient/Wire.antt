-- ===== src/SystemClient/Wire.antt =====
-- The headers of a request and of a reply, byte by byte.
use ipc_with_cht.Prelude.{
  ℕ, ◌+◌, ◌%◌, ◌^◌, ◌≤◌, ◌<◌, ◌≡◌, ◌≢◌, ◌↔◌, refl, ◌∙◌, ap, Bool, true, false, Option, none, some,
  length, length-take, arith,
}
use native.Mathlib.Decide.{dec_lt}
use ipc_with_cht.Prelude.Bytes.{Bytes, load}
use ipc_with_cht.Prelude.Memory.{
  store_num, length-store_num, load-store_num, load-store_num_before, load-store_num_after,
  load-take, load_within,
}
use ipc_with_cht.SystemApi.Command.{Cmd, command_number, command_number-lt}
use ipc_with_cht.SystemClient.{
  hdr_size, msg_size, fourcc, wire_id, msg_init, request_hdr, IpcHdr, make_hdr, read_hdr, judge_hdr,
  judge_read, judge,
}

-- A header of 76 bytes for a request with a payload of `n` bytes. It has two numbers behind the
-- sizes: the id and the command.
pub record IsRequestHdr (bs : Bytes) (id cmd n : ℕ) : Type 0 where
  pub whole : length bs ≡ hdr_size
  pub four_cc : load 0 4 bs ≡ some fourcc
  pub numbers : load 4 4 bs ≡ some 2
  pub payload : load 8 4 bs ≡ some n
  pub msg_id : load 12 2 bs ≡ some id
  pub cmd_type : load 14 2 bs ≡ some cmd

wire_id-lt : (id : ℕ) → wire_id id < 2 ^ 16
unfolding wire_id
wire_id-lt id = omega arith

-- The message as `zwsystem_ipc_msg_init` leaves it, field by field.
module _ (id cmd : ℕ) (m : Bytes) where
  length-msg_init : length (msg_init id cmd m) ≡ length m
  unfolding msg_init
  length-msg_init =
      length-store_num 80 8 0 _
      ∙ length-store_num 8 4 0 _
      ∙ length-store_num 4 4 2 _
      ∙ length-store_num 14 2 cmd _
      ∙ length-store_num 12 2 id _
      ∙ length-store_num 0 4 fourcc m

  fourcc-msg_init : length m ≡ msg_size → load 0 4 (msg_init id cmd m) ≡ some fourcc
  unfolding msg_init
  fourcc-msg_init room =
      load-store_num_before 80 8 0 0 4 _ (omega arith)
      ∙ load-store_num_before 8 4 0 0 4 _ (omega arith)
      ∙ load-store_num_before 4 4 2 0 4 _ (omega arith)
      ∙ load-store_num_before 14 2 cmd 0 4 _ (omega arith)
      ∙ load-store_num_before 12 2 id 0 4 _ (omega arith)
      ∙ load-store_num 0 4 fourcc m (omega (arith, room)) (omega arith)

  numbers-msg_init : length m ≡ msg_size → load 4 4 (msg_init id cmd m) ≡ some 2
  unfolding msg_init
  numbers-msg_init room =
      let first = store_num 0 4 fourcc m in
      let second = store_num 12 2 id first in
      let long : length (store_num 14 2 cmd second) ≡ msg_size =
        length-store_num 14 2 cmd second
        ∙ length-store_num 12 2 id first
        ∙ length-store_num 0 4 fourcc m
        ∙ room in
      load-store_num_before 80 8 0 4 4 _ (omega arith)
      ∙ load-store_num_before 8 4 0 4 4 _ (omega arith)
      ∙ load-store_num 4 4 2 (store_num 14 2 cmd second) (omega (arith, long)) (omega arith)

  msg_id-msg_init : length m ≡ msg_size → id < 2 ^ 16 → load 12 2 (msg_init id cmd m) ≡ some id
  unfolding msg_init
  msg_id-msg_init room fits =
      load-store_num_before 80 8 0 12 2 _ (omega arith)
      ∙ load-store_num_after 8 4 0 12 2 _ (omega arith)
      ∙ load-store_num_after 4 4 2 12 2 _ (omega arith)
      ∙ load-store_num_before 14 2 cmd 12 2 _ (omega arith)
      ∙ load-store_num 12 2 id (store_num 0 4 fourcc m)
          (omega (arith, length-store_num 0 4 fourcc m, room)) (omega (arith, fits))

  cmd_type-msg_init : length m ≡ msg_size → cmd < 2 ^ 16 → load 14 2 (msg_init id cmd m) ≡ some cmd
  unfolding msg_init
  cmd_type-msg_init room fits =
      let first = store_num 0 4 fourcc m in
      let long : length (store_num 12 2 id first) ≡ msg_size =
        length-store_num 12 2 id first ∙ length-store_num 0 4 fourcc m ∙ room in
      load-store_num_before 80 8 0 14 2 _ (omega arith)
      ∙ load-store_num_after 8 4 0 14 2 _ (omega arith)
      ∙ load-store_num_after 4 4 2 14 2 _ (omega arith)
      ∙ load-store_num 14 2 cmd (store_num 12 2 id first) (omega (arith, long))
          (omega (arith, fits))

-- A field of the request's header other than the payload's size is that of the message.
module _ (stack : Bytes) (id : ℕ) (cmd : Cmd) (size : ℕ) (room : length stack ≡ msg_size) where
  sized_length :
      length (store_num 8 4 (size % 2 ^ 32) (msg_init (wire_id id) (command_number cmd) stack))
      ≡ msg_size
  sized_length =
      length-store_num 8 4 _ _ ∙ length-msg_init (wire_id id) (command_number cmd) stack ∙ room

  load-request_hdr :
      (o n : ℕ)
      → o + n ≤ hdr_size
      → load o n (request_hdr stack id cmd size)
        ≡ load o n
            (store_num 8 4 (size % 2 ^ 32) (msg_init (wire_id id) (command_number cmd) stack))
  unfolding request_hdr
  load-request_hdr o n h = load-take o n hdr_size _ h (omega (arith, sized_length))

  length-request_hdr : length (request_hdr stack id cmd size) ≡ hdr_size
  unfolding request_hdr
  length-request_hdr = omega (
    arith,
    sized_length,
    length-take hdr_size
        (store_num 8 4 (size % 2 ^ 32) (msg_init (wire_id id) (command_number cmd) stack)),
  )

-- For memory of the message's size, the header that a request starts with is read back field by
-- field: the code ZWSY, two numbers, the payload's size modulo 2^32, the id that stands for the
-- message's, and the command.
pub request_hdr-IsRequestHdr :
    (stack : Bytes) (id : ℕ) (cmd : Cmd) (n : ℕ)
    → length stack ≡ msg_size
    → IsRequestHdr (request_hdr stack id cmd n) (wire_id id) (command_number cmd) (n % 2 ^ 32)
request_hdr-IsRequestHdr stack id cmd n room =
    let msg = msg_init (wire_id id) (command_number cmd) stack in
    let field = load-request_hdr stack id cmd n room in
    record {
      whole = length-request_hdr stack id cmd n room;
      four_cc =
          field 0 4 (omega arith)
          ∙ load-store_num_before 8 4 _ 0 4 msg (omega arith)
          ∙ fourcc-msg_init (wire_id id) (command_number cmd) stack room;
      numbers =
          field 4 4 (omega arith)
          ∙ load-store_num_before 8 4 _ 4 4 msg (omega arith)
          ∙ numbers-msg_init (wire_id id) (command_number cmd) stack room;
      payload =
          field 8 4 (omega arith)
          ∙ load-store_num 8 4 (n % 2 ^ 32) msg
              (omega (arith, length-msg_init (wire_id id) (command_number cmd) stack, room))
              (omega arith);
      msg_id =
          field 12 2 (omega arith)
          ∙ load-store_num_after 8 4 _ 12 2 msg (omega arith)
          ∙ msg_id-msg_init (wire_id id) (command_number cmd) stack room (wire_id-lt id);
      cmd_type =
          field 14 2 (omega arith)
          ∙ load-store_num_after 8 4 _ 14 2 msg (omega arith)
          ∙ cmd_type-msg_init (wire_id id) (command_number cmd) stack room
              (omega (arith, command_number-lt cmd));
    }

-- The bytes of a reply that the client takes for the answer to the command, with a payload of `n`
-- bytes.
pub record IsAnswer (cmd : Cmd) (n : ℕ) (r : Bytes) : Type 0 where
  pub long_enough : hdr_size ≤ length r
  pub four_cc : load 0 4 r ≡ some fourcc
  pub numbers : (k : ℕ) × (load 4 4 r ≡ some k) × (3 ≤ k)
  pub payload : load 8 4 r ≡ some n
  pub cmd_type : load 14 2 r ≡ some (command_number cmd)
  pub result : load 16 2 r ≡ some 0

-- The client judges every reply without reading outside its bytes.
pub judge_total : (cmd : Cmd) (n : ℕ) (done : Bool) (r : Option Bytes) → judge cmd n done r ≢ none
unfolding judge judge_read read_hdr make_hdr
judge_total cmd n false r e = cc
judge_total cmd n true none e = cc
judge_total cmd n true (some r) e = ground (
  arith,
  load_within 0 4 r,
  load_within 4 4 r,
  load_within 8 4 r,
  load_within 14 2 r,
  load_within 16 2 r,
)

judge_hdr_zero :
    (cmd : Cmd) (n : ℕ) (h : IpcHdr)
    → judge_hdr cmd n h ≡ 0
    → (h.four_cc ≡ fourcc)
      × (3 ≤ h.size_of_hdr)
      × (h.result ≡ 0)
      × (h.cmd_type ≡ command_number cmd)
      × (h.payload_size ≡ n)
unfolding judge_hdr
judge_hdr_zero cmd n h e = ground arith

make_hdr-some :
    (f n p c r : Option ℕ) (h : IpcHdr)
    → make_hdr f n p c r ≡ some h
    → (f ≡ some h.four_cc)
      × (n ≡ some h.size_of_hdr)
      × (p ≡ some h.payload_size)
      × (c ≡ some h.cmd_type)
      × (r ≡ some h.result)
unfolding make_hdr
make_hdr-some f n p c r h e = ground arith

judge_read_zero :
    (cmd : Cmd) (n : ℕ) (o : Option IpcHdr)
    → judge_read cmd n o ≡ some 0
    → (h : IpcHdr) × (o ≡ some h) × (judge_hdr cmd n h ≡ 0)
unfolding judge_read
judge_read_zero cmd n none e = cc
judge_read_zero cmd n (some h) e = (h, refl, cc)

accepted_sound :
    (cmd : Cmd) (n : ℕ) (r : Bytes) → judge cmd n true (some r) ≡ some 0 → IsAnswer cmd n r
unfolding judge read_hdr
accepted_sound cmd n r e = elim (dec_lt (length r) hdr_size) [
  | yes short ↦ ground arith
  | no long ↦
      let read : judge_read cmd n (read_hdr r) ≡ some 0 = ground arith in
      let (h, there, good) = judge_read_zero cmd n (read_hdr r) read in
      let (f, k, p, c, z) = make_hdr-some _ _ _ _ _ h there in
      let (f', k', z', c', p') = judge_hdr_zero cmd n h good in
      record {
        long_enough = omega arith;
        four_cc = f ∙ ap some f';
        numbers = (h.size_of_hdr, k, k');
        payload = p ∙ ap some p';
        cmd_type = c ∙ ap some c';
        result = z ∙ ap some z';
      }
]

accepts_answer :
    (cmd : Cmd) (n : ℕ) (r : Bytes) → IsAnswer cmd n r → judge cmd n true (some r) ≡ some 0
unfolding judge judge_read read_hdr make_hdr judge_hdr
accepts_answer cmd n r a =
    let (k, there, enough) = a.numbers in
    rw a.four_cc (
      rw there (rw a.payload (rw a.cmd_type (rw a.result (ground (arith, a.long_enough, enough))))))

-- A reply is accepted exactly if it has a whole header with the code ZWSY and at least three
-- numbers, result 0, the command that was sent, and the payload's size that is awaited.
pub judge_accepts :
    (cmd : Cmd) (n : ℕ) (r : Bytes) → (judge cmd n true (some r) ≡ some 0) ↔ IsAnswer cmd n r
judge_accepts cmd n r = (accepted_sound cmd n r, accepts_answer cmd n r)
