-- ===== src/Event/Handle/Sending.antt =====
-- What `zs_ipc_sendEvent` sends, and what a receiver makes of it.
use ipc_with_cht.Prelude.{
  ℕ, zero, suc, ◌≡◌, ◌≢◌, refl, ap, ◌∙◌, Bool, true, false, Option, none, some, List, [], ◌∷◌, ◌++◌,
  append_assoc, arith, length,
}
use ipc_with_cht.Prelude.Bytes.{Bytes}
use ipc_with_cht.Nng.{Nng, Log}
use ipc_with_cht.Draft.Contents.{
  delivered, delivered-append, delivered-send, append_adds, append_fails, send_empties, gathered,
  deliver,
}
use ipc_with_cht.PublishHandler.{PublishHandler, append, send, create, release, init, new}
use ipc_with_cht.Draft.{discard}
use ipc_with_cht.Event.{event_hdr_size, msg_hdr_size, event_hdr, msg_hdr}
use ipc_with_cht.Event.Wire.{event_bytes, length-event_hdr, length-msg_hdr}
use ipc_with_cht.Event.Handle.{
  EventHandle, Build, Frame, transmit, send_with, send_event, publisher,
}

-- The publisher has no message begun.
abbrev pub IsIdle : PublishHandler → Type 0
IsIdle p = p.msg ≡ none

-- `append` and `send` of a publisher are those of its message.
appends :
    (nng : Nng) (payload : Bytes) (p : PublishHandler) (log : Log)
    → (delivered (append nng (some payload) p log).2 ≡ delivered log)
      × ((append nng (some payload) p log).0 ≡ true
          → (append nng (some payload) p log).1.msg ≡ some (gathered p.msg ++ payload))
unfolding append
appends nng payload p log =
    (delivered-append nng (some payload) p.msg log, append_adds nng payload p.msg log)

sends :
    (nng : Nng) (p : PublishHandler) (log : Log)
    → delivered (send nng p log).2 ≡ deliver (send nng p log).0 (gathered p.msg) (delivered log)
unfolding send
sends nng p log = delivered-send nng p.msg log

append_fails_idle :
    (nng : Nng) (payload : Bytes) (p : PublishHandler) (log : Log)
    → payload ≢ []
    → (append nng (some payload) p log).0 ≡ false
    → (append nng (some payload) p log).1.msg ≡ none
unfolding append
append_fails_idle nng [] p log ne = absurd (ne refl)
append_fails_idle nng (b ∷ bs) p log ne = append_fails nng b bs p.msg log

send_idle : (nng : Nng) (p : PublishHandler) (log : Log) → (send nng p log).1.msg ≡ none
unfolding send
send_idle nng p log = send_empties nng p.msg log

transmit-IsIdle :
    (nng : Nng) (hdr msg payload : Bytes) (p : PublishHandler) (log : Log)
    → hdr ≢ []
    → msg ≢ []
    → payload ≢ []
    → IsIdle (transmit nng hdr msg payload p log).1
unfolding transmit
transmit-IsIdle nng hdr msg payload p0 log0 h m l =
    let (done1, p1, log1) = append nng (some hdr) p0 log0 in
    let (done2, p2, log2) = append nng (some msg) p1 log1 in
    let (done3, p3, log3) = append nng (some payload) p2 log2 in
    ground (
      arith,
      append_fails_idle nng hdr p0 log0 h,
      append_fails_idle nng msg p1 log1 m,
      append_fails_idle nng payload p2 log2 l,
      send_idle nng p3 log3,
    )

-- What is delivered is one message, or with a return code other than 0 none.
abbrev pub delivery : ℕ → Bytes → List Bytes → List Bytes
delivery zero m ms = m ∷ ms
delivery (suc rc) m ms = ms

delivered-transmit :
    (nng : Nng) (hdr msg payload : Bytes) (p : PublishHandler) (log : Log)
    → IsIdle p
    → delivered (transmit nng hdr msg payload p log).2
      ≡ delivery (transmit nng hdr msg payload p log).0 (hdr ++ (msg ++ payload)) (delivered log)
unfolding transmit
delivered-transmit nng hdr msg payload p0 log0 i =
    let (done1, p1, log1) = append nng (some hdr) p0 log0 in
    let (done2, p2, log2) = append nng (some msg) p1 log1 in
    let (done3, p3, log3) = append nng (some payload) p2 log2 in
    ground (
      arith,
      appends nng hdr p0 log0,
      appends nng msg p1 log1,
      appends nng payload p2 log2,
      sends nng p3 log3,
      append_assoc hdr msg payload,
    )

-- A frame whose stacks have the sizes of the headers.
pub record IsFrame (f : Frame) : Type 0 where
  pub hdr_room : length f.hdr_stack ≡ event_hdr_size
  pub msg_room : length f.msg_stack ≡ msg_hdr_size

-- The publisher of the handle, if there is one, has no message begun.
abbrev pub IsIdleSp : Option PublishHandler → Type 0
IsIdleSp none = Unit {0}
IsIdleSp (some p) = IsIdle p

abbrev pub OnlyIdle : Log → Option PublishHandler × Log → Type 0
OnlyIdle log (sp, log') = IsIdleSp sp × (delivered log' ≡ delivered log)

delivered-close :
    (nng : Nng) (p : PublishHandler) (log : Log)
    → IsIdle p
    → delivered (release nng p log).2 ≡ delivered log
unfolding release discard delivered
delivered-close nng p log i = ground arith

init_keeps :
    (nng : Nng) (dir : Bytes) (p : PublishHandler) (log : Log)
    → ((init nng dir p log).1.msg ≡ p.msg) × (delivered (init nng dir p log).2 ≡ delivered log)
unfolding init delivered
init_keeps nng dir p log = ground arith

create-OnlyIdle :
    (nng : Nng) (dir : Bytes) (name : Option Bytes) (proxy : Bool) (log : Log)
    → OnlyIdle log (create nng dir name proxy log)
unfolding create
create-OnlyIdle nng dir none proxy log = (tt, refl)
create-OnlyIdle nng dir (some []) proxy log = (tt, refl)
create-OnlyIdle nng dir (some (b ∷ bs)) proxy log =
    let p = new (b ∷ bs) proxy in
    let (done, p', log') = init nng dir p log in
    ground (arith, init_keeps nng dir p log, delivered-close nng p' log')

publisher-OnlyIdle :
    (nng : Nng) (b : Build) (sp : Option PublishHandler) (log : Log)
    → IsIdleSp sp
    → OnlyIdle log (publisher nng b sp log)
unfolding publisher
publisher-OnlyIdle nng b none log i =
    create-OnlyIdle nng b.dir (some b.publish_name) b.proxy_mode log
publisher-OnlyIdle nng b (some p) log i = (i, refl)

-- What a call leaves: an idle publisher, and at most the message `m` delivered, exactly if it
-- returns 0.
abbrev pub Delivers : Bytes → Log → ℕ × EventHandle × Log → Type 0
Delivers m log (rc, e, log') = IsIdleSp e.pub_sp × (delivered log' ≡ delivery rc m (delivered log))

length-ne_nil : (bs : Bytes) (k : ℕ) → length bs ≡ suc k → bs ≢ []
length-ne_nil [] k h e = absurd (omega arith)
length-ne_nil (b ∷ bs) k h e = cc

send_with-Delivers :
    (nng : Nng) (f : Frame) (topic payload : Bytes) (e : EventHandle)
    (made : Option PublishHandler × Log)
    → IsFrame f
    → payload ≢ []
    → IsIdleSp made.0
    → Delivers
        (event_bytes f.hdr_stack f.msg_stack topic e.seq_id f.clock payload)
        made.1
        (send_with nng f (some topic) payload e made)
unfolding send_with event_bytes
send_with-Delivers nng f topic payload e (none, log) room ne i = (tt, refl)
send_with-Delivers nng f topic payload e (some p, log) room ne i =
    let hdr = event_hdr f.hdr_stack (some topic) e.seq_id f.clock (length payload) in
    let msg = msg_hdr f.msg_stack (length payload) in
    (
      transmit-IsIdle nng hdr msg payload p log
          (length-ne_nil hdr 191
            (length-event_hdr f.hdr_stack topic e.seq_id f.clock (length payload) ∙ room.hdr_room))
          (length-ne_nil msg 139 (length-msg_hdr f.msg_stack (length payload) ∙ room.msg_room)) ne,
      delivered-transmit nng hdr msg payload p log i,
    )

-- Publishing an event delivers, exactly if it returns 0, one message: the two headers and the
-- payload. Otherwise it delivers nothing, and in both cases nothing is left in the publisher that
-- could get into the next event.
pub send_event-Delivers :
    (nng : Nng) (b : Build) (f : Frame) (topic : Bytes) (d : ℕ) (ds : Bytes) (e : EventHandle)
    (log : Log)
    → IsFrame f
    → IsIdleSp e.pub_sp
    → Delivers
        (event_bytes f.hdr_stack f.msg_stack topic e.seq_id f.clock (d ∷ ds))
        log
        (send_event nng b f (some topic) (some (d ∷ ds)) e log)
unfolding send_event
send_event-Delivers nng b f topic d ds e log room i =
    let (idle, same) = publisher-OnlyIdle nng b e.pub_sp log i in
    let sent =
      send_with-Delivers nng f topic (d ∷ ds) e (publisher nng b e.pub_sp log) room (λ eq. cc)
        idle in
    (sent.0, sent.1 ∙ ap (delivery _ _) same)
