-- ===== src/Draft/Contents.antt =====
-- What a handler sends: the payloads appended since the last send, in order.
use ipc_with_cht.Prelude.{
  ℕ, ◌≡◌, refl, Bool, true, false, Option, none, some, List, [], ◌∷◌, ◌++◌, append_assoc,
  append-nil, zero, arith,
}
use ipc_with_cht.Prelude.Bytes.{Bytes}
use ipc_with_cht.Nng.{Nng, Log, Call, sendmsg}
use ipc_with_cht.Draft.{Draft, append_to, append, send}

abbrev pub concat : List Bytes → Bytes
concat [] = []
concat (p ∷ ps) = p ++ concat ps

-- The bytes gathered so far.
abbrev pub gathered : Draft → Bytes
gathered none = []
gathered (some m) = m

-- An append that succeeds adds the payload at the end.
pub append_adds :
    (nng : Nng) (payload : Bytes) (msg : Draft) (log : Log)
    → (append nng (some payload) msg log).0 ≡ true
    → (append nng (some payload) msg log).1 ≡ some (gathered msg ++ payload)
unfolding append
append_adds nng [] msg log h = cc
append_adds nng (b ∷ bs) (some m) log h = ground arith
append_adds nng (b ∷ bs) none log h = ground arith

-- The calls `append(p1); append(p2); ...; send()`, up to the first that fails.
unfoldable pub append_all_send : Nng → List Bytes → Draft → Log → Bool × Draft × Log
append_all_send nng [] msg log = send nng msg log
append_all_send nng (p ∷ ps) msg log =
    let (done, msg', log') = append nng (some p) msg log in
    let rest = append_all_send nng ps msg' log' in
    elim done [ true ↦ rest | false ↦ (false, msg', log') ]

delivered_by : Call → ℕ → List Bytes → List Bytes
delivered_by (sendmsg m) zero ms = m ∷ ms
delivered_by _ _ ms = ms

-- The messages that NNG has taken to send, newest first.
unfoldable pub delivered : Log → List Bytes
unfolding delivered_by
delivered [] = []
delivered (e ∷ log) = delivered_by e.call e.rv (delivered log)

-- What was delivered after a call that gave `done` for a message with the bytes `m`.
abbrev pub deliver : Bool → Bytes → List Bytes → List Bytes
deliver true m ms = m ∷ ms
deliver false m ms = ms

delivered-append_to :
    (nng : Nng) (payload m : Bytes) (log : Log)
    → delivered (append_to nng payload m log).2 ≡ delivered log
unfolding append_to delivered
delivered-append_to nng payload m log = ground arith

pub delivered-append :
    (nng : Nng) (payload : Option Bytes) (msg : Draft) (log : Log)
    → delivered (append nng payload msg log).2 ≡ delivered log
unfolding append delivered
delivered-append nng none msg log = refl
delivered-append nng (some []) msg log = refl
delivered-append nng (some (b ∷ bs)) (some m) log = delivered-append_to nng (b ∷ bs) m log
delivered-append nng (some (b ∷ bs)) none log = ground arith

pub delivered-send :
    (nng : Nng) (msg : Draft) (log : Log)
    → delivered (send nng msg log).2 ≡ deliver (send nng msg log).0 (gathered msg) (delivered log)
unfolding send delivered
delivered-send nng none log = refl
delivered-send nng (some m) log = ground arith

-- A run of appends and a send delivers, if every call succeeds, one message: the bytes gathered
-- before, then the payloads in order. If a call fails, it delivers nothing.
pub delivered-append_all_send :
    (nng : Nng) (ps : List Bytes) (msg : Draft) (log : Log)
    → delivered (append_all_send nng ps msg log).2
      ≡ deliver (append_all_send nng ps msg log).0 (gathered msg ++ concat ps) (delivered log)
unfolding append_all_send
delivered-append_all_send nng [] msg log = rw append-nil (delivered-send nng msg log)
delivered-append_all_send nng (p ∷ ps) msg log =
    let (done, msg', log') = append nng (some p) msg log in
    ground (
      arith,
      append_adds nng p msg log,
      delivered-append nng (some p) msg log,
      delivered-append_all_send nng ps msg' log',
      append_assoc (gathered msg) p (concat ps),
    )

-- An append of some bytes that fails leaves no message.
pub append_fails :
    (nng : Nng) (b : ℕ) (bs : Bytes) (msg : Draft) (log : Log)
    → (append nng (some (b ∷ bs)) msg log).0 ≡ false
    → (append nng (some (b ∷ bs)) msg log).1 ≡ none
unfolding append
append_fails nng b bs (some m) log h = ground arith
append_fails nng b bs none log h = ground arith

pub send_empties : (nng : Nng) (msg : Draft) (log : Log) → (send nng msg log).1 ≡ none
unfolding send
send_empties nng none log = refl
send_empties nng (some m) log = ground arith
