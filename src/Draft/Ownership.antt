-- ===== src/Draft/Ownership.antt =====
-- What becomes of the message of a handler: no operation on it loses it or frees it twice.
use ipc_with_cht.Prelude.{ℕ, ◌+◌, ◌≡◌, Option, none, some, [], ◌∷◌, arith}
use ipc_with_cht.Prelude.Bytes.{Bytes}
use ipc_with_cht.Nng.{Nng, Log, acquired, disposed}
use ipc_with_cht.Draft.{Draft, append_to, append, send, discard}

-- The messages that the handler holds.
abbrev pub held : Draft → ℕ
held none = 0
held (some m) = 1

-- Of the messages acquired so far the handler holds the one in `msg`, `lost` have no owner any
-- more, and the others are disposed of.
abbrev pub Balanced : Draft → Log → ℕ → Type 0
Balanced msg log lost = acquired log ≡ disposed log + held msg + lost

append_to-Balanced :
    (nng : Nng) (payload m : Bytes) (log : Log) (lost : ℕ)
    → acquired log ≡ disposed log + 1 + lost
    → Balanced (append_to nng payload m log).1 (append_to nng payload m log).2 lost
unfolding append_to acquired disposed
append_to-Balanced nng payload m log lost v = ground arith

pub append-Balanced :
    (nng : Nng) (payload : Option Bytes) (msg : Draft) (log : Log) (lost : ℕ)
    → Balanced msg log lost
    → Balanced (append nng payload msg log).1 (append nng payload msg log).2 lost
unfolding append acquired disposed
append-Balanced nng none msg log lost v = v
append-Balanced nng (some []) msg log lost v = v
append-Balanced nng (some (b ∷ bs)) (some m) log lost v = ground arith
append-Balanced nng (some (b ∷ bs)) none log lost v = ground arith

pub send-Balanced :
    (nng : Nng) (msg : Draft) (log : Log) (lost : ℕ)
    → Balanced msg log lost
    → Balanced (send nng msg log).1 (send nng msg log).2 lost
unfolding send acquired disposed
send-Balanced nng none log lost v = v
send-Balanced nng (some m) log lost v = ground arith

pub discard-Balanced :
    (nng : Nng) (msg : Draft) (log : Log) (lost : ℕ)
    → Balanced msg log lost
    → Balanced none (discard nng msg log) lost
unfolding discard acquired disposed
discard-Balanced nng none log lost v = v
discard-Balanced nng (some m) log lost v = ground arith
