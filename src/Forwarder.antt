-- ===== src/Forwarder.antt =====
-- NngIpcPubsubForwarder.c: the program between the publishers and the subscribers. It opens a raw
-- socket for each side, lets both listen, and hands them to nng_device, which forwards.
pub mod Order
use ipc_with_cht.Prelude.{
  ℕ, zero, suc, ◌+◌, Bool, true, false, List, [], ◌∷◌, ◌++◌, ◌==◌, length, if◌then◌else◌,
}
use ipc_with_cht.Prelude.Bytes.{Bytes}
use ipc_with_cht.Prelude.Memory.{print_text}
use ipc_with_cht.Prelude.Text.{codes}

-- The socket that the publishers dial, and the one that the subscribers dial.
pub data Side : Type 0 where
  front back : Side

-- The calls of nng that `main` makes.
pub data Call : Type 0 where
  open_raw : Side → Call
  listener_create : Side → Bytes → Call
  set_permissions : Side → ℕ → Call
  listener_start : Side → Call
  device fini : Call

pub record Entry : Type 0 where
  pub call : Call
  pub rv : ℕ

abbrev pub Log : Type 0
Log = List Entry

-- What nng returns to a call after a history: 0 is success.
abbrev pub Answers : Type 0
Answers = Log → Call → ℕ

-- The exit code, none while the program runs on, and the calls, newest first.
pub data Run : Type 0 where
  going exited : Log → Run

-- `ret = call; panic_on_error(ret, ...)`: a failure ends the program with EXIT_FAILURE.
unfoldable pub must : Answers → Call → Run → Run
must nng c (exited log) = exited log
must nng c (going log) =
    let log' : Log = record { call = c; rv = nng log c } ∷ log in
    if nng log c == 0 then going log' else exited log'

-- A failure is only printed.
unfoldable pub may : Answers → Call → Run → Run
may nng c (exited log) = exited log
may nng c (going log) = going (record { call = c; rv = nng log c } ∷ log)

-- "ipc://%s/%s" in a buffer of 256 bytes, from NNGIPC_DIR_PATH and the program's argument.
unfoldable pub listen_url : Bytes → Bytes → Bytes
unfolding print_text
listen_url dir name = print_text 256 (codes "ipc://" ++ (dir ++ (b'/' ∷ name)))

-- The file mode of the sockets, 0755 in octal.
abbrev pub socket_mode : ℕ
socket_mode = 493

-- Up to the call that forwards.
unfoldable pub listen_both : Answers → Bytes → Bytes → Bytes → Run
unfolding must may listen_url
listen_both nng dir front_name back_name =
    let opened = must nng (open_raw back) (must nng (open_raw front) (going [])) in
    let created =
      must nng (listener_create back (listen_url dir back_name))
        (must nng (listener_create front (listen_url dir front_name)) opened) in
    let moded =
      may nng (set_permissions back socket_mode)
        (may nng (set_permissions front socket_mode) created) in
    must nng (listener_start back) (must nng (listener_start front) moded)

-- The exit code, and the calls.
finish : Run → ℕ × Log
finish (going log) = (0, log)
finish (exited log) = (1, log)

-- `main` with its arguments behind the program's name.
unfoldable pub main : Answers → Bytes → List Bytes → ℕ × Log
unfolding listen_both finish
main nng dir (front_name ∷ back_name ∷ []) =
    finish (may nng fini (must nng device (listen_both nng dir front_name back_name)))
main nng dir _ = (2, [])
