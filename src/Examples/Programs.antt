-- ===== src/Examples/Programs.antt =====
-- The forwarder with a library that lets every call but one succeed.
use ipc_with_cht.Prelude.{◌≡◌, ℕ, true, [], ◌∷◌}
use ipc_with_cht.Prelude.Bytes.{Bytes}
use ipc_with_cht.Forwarder.{Answers, Call, set_permissions, main}
use ipc_with_cht.Forwarder.Order.{device_after_starts, main-device_after_starts}

-- The permissions of the sockets cannot be set.
fixed_mode : Call → ℕ
fixed_mode (set_permissions side mode) = 9
fixed_mode c = 0

abbrev granting : Answers
granting log c = fixed_mode c

abbrev name : Bytes
name = b'a' ∷ []

main-device_after_starts_example :
    device_after_starts (main granting name (name ∷ name ∷ [])).1 ≡ true
main-device_after_starts_example = main-device_after_starts granting name (name ∷ name ∷ [])
