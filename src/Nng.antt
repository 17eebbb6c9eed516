-- ===== src/Nng.antt =====
-- The boundary to NNG and to the C library (prebuild/include/nng, libc), which the handlers call.
-- Their code is not part of the repository: a call is an entry in a log, and the answer to it is a
-- parameter, `Nng`, that may depend on the whole history.
use ipc_with_cht.Prelude.{ℕ, zero, suc, ◌+◌, Bool, List, [], ◌∷◌, ◌==◌}
use ipc_with_cht.Prelude.Bytes.{Bytes}

-- A call as the source writes it, with the arguments that matter to its effect.
pub data Call : Type 0 where
  socket_open socket_close : Call
  dial listen : Bytes → Call
  msg_alloc msg_free msg_clear : Call
  msg_append : Bytes → Call
  sendmsg : Bytes → Call
  recvmsg : Call
  malloc : ℕ → Call
  socket_subscribe socket_unsubscribe : Bytes → Call
  ctx_subscribe ctx_unsubscribe : Bytes → Call
  aio_alloc aio_free aio_stop ctx_open ctx_close : Call
  ctx_recv ctx_send : Call
  sleep_aio : ℕ → Call

-- A call with the number that it returned, newest first.
pub record Entry : Type 0 where
  pub call : Call
  pub rv : ℕ

abbrev pub Log : Type 0
Log = List Entry

-- `rv` answers a call after a history: 0 is success, but for `malloc`, where 0 is NULL. `body` is
-- the message that a successful `nng_recvmsg` hands over after a history.
pub record Nng : Type 0 where
  pub rv : Log → Call → ℕ
  pub body : Log → Bytes

-- The error codes of nng.h that the source names.
abbrev pub nng_eclosed : ℕ
nng_eclosed = 7

abbrev pub nng_ecanceled : ℕ
nng_ecanceled = 20

-- The log after a call.
abbrev pub record_call : Nng → Call → Log → Log
record_call nng c log = record { call = c; rv = nng.rv log c } ∷ log

-- Whether the call succeeds after the history.
abbrev pub succeeds : Nng → Call → Log → Bool
succeeds nng c log = nng.rv log c == 0

one_if_zero : ℕ → ℕ
one_if_zero zero = 1
one_if_zero (suc n) = 0

-- The messages that the entry makes the caller's own: a new one, or a received one.
acquired_by : Call → ℕ → ℕ
unfolding one_if_zero
acquired_by msg_alloc rv = one_if_zero rv
acquired_by recvmsg rv = one_if_zero rv
acquired_by _ rv = 0

-- The messages that the caller gives up: one that it frees, or one that NNG has taken to send.
disposed_by : Call → ℕ → ℕ
unfolding one_if_zero
disposed_by msg_free rv = 1
disposed_by (sendmsg m) rv = one_if_zero rv
disposed_by _ rv = 0

unfoldable pub acquired : Log → ℕ
unfolding acquired_by
acquired [] = 0
acquired (e ∷ log) = acquired_by e.call e.rv + acquired log

unfoldable pub disposed : Log → ℕ
unfolding disposed_by
disposed [] = 0
disposed (e ∷ log) = disposed_by e.call e.rv + disposed log
