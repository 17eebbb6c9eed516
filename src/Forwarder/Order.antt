-- ===== src/Forwarder/Order.antt =====
-- In which order the forwarder makes its calls, and when it fails.
use ipc_with_cht.Prelude.{
  ℕ, ◌≡◌, refl, Bool, true, false, List, [], ◌∷◌, ◌==◌, if◌then◌else◌, arith, ◌&&◌, ◌||◌,
}
use ipc_with_cht.Prelude.Bytes.{Bytes}
use ipc_with_cht.Forwarder.{
  Side, front, back, Call, set_permissions, listener_start, device, fini, Log, Answers, must, may,
  listen_both, finish, main,
}

-- Whether the log has a call to start the side's listener that succeeded.
is_start : Side → Call → ℕ → Bool
is_start front (listener_start front) rv = rv == 0
is_start back (listener_start back) rv = rv == 0
is_start side c rv = false

unfoldable pub started : Side → Log → Bool
unfolding is_start
started side [] = false
started side (e ∷ log) = is_start side e.call e.rv || started side log

is_device : Call → Bool
is_device device = true
is_device c = false

-- Every call of nng_device has successful starts of both listeners before it.
unfoldable pub device_after_starts : Log → Bool
unfolding is_device
device_after_starts [] = true
device_after_starts (e ∷ log) =
    let rest = device_after_starts log in
    if is_device e.call then (started front log && started back log) && rest else rest

-- Whatever nng answers and whatever arguments are given, nng_device is called only when both
-- listeners have been started successfully.
pub main-device_after_starts :
    (nng : Answers) (dir : Bytes) (args : List Bytes)
    → device_after_starts (main nng dir args).1 ≡ true
unfolding main listen_both must may finish device_after_starts started
main-device_after_starts nng dir [] = refl
main-device_after_starts nng dir (a ∷ []) = refl
main-device_after_starts nng dir (a ∷ b ∷ []) = ground arith
main-device_after_starts nng dir (a ∷ b ∷ c ∷ cs) = refl

-- The calls whose failure ends the program.
is_fatal : Call → Bool
is_fatal (set_permissions side mode) = false
is_fatal fini = false
is_fatal c = true

unfoldable pub none_failed : Log → Bool
unfolding is_fatal
none_failed [] = true
none_failed (e ∷ log) =
    let rest = none_failed log in if is_fatal e.call then (e.rv == 0) && rest else rest

-- With two names as arguments the forwarder exits with 0 exactly if none of its calls failed but
-- perhaps those that set the permissions, and with 1 otherwise.
pub main_exit :
    (nng : Answers) (dir front_name back_name : Bytes)
    → (main nng dir (front_name ∷ back_name ∷ [])).0
      ≡ (if none_failed (main nng dir (front_name ∷ back_name ∷ [])).1 then 0 else 1)
unfolding main listen_both must may finish none_failed
main_exit nng dir front_name back_name = ground arith
