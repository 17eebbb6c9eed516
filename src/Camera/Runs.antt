-- ===== src/Camera/Runs.antt =====
-- The manager driven by calls, one after another: what holds after any of them.
pub mod Ids
pub mod Told
pub mod Registration
pub mod Keys
pub mod Mirror
use ipc_with_cht.Prelude.{
  ℕ, suc, ◌≤◌, ◌<◌, ◌≡◌, ◌≢◌, refl, Bool, true, false, Option, none, some, List, [], ◌∷◌, ◌++◌,
  arith,
}
use ipc_with_cht.Prelude.Bytes.{Bytes}
use ipc_with_cht.Prelude.Text.{codes}
use ipc_with_cht.Prelude.Dict.{insert}
use ipc_with_cht.Camera.Json.{Json}
use ipc_with_cht.Camera.Faces.{Writing, Outcome, update_features}
use ipc_with_cht.Camera.Store.{
  Callback, IdentificationFeature, Store, Notice, Step, then_step, new, set_parameter,
  set_ntp_server, remove_parameter, register_callback, unregister_callback,
}
use ipc_with_cht.Camera.Features.{add_feature, remove_feature, update_feature}

-- The part of generateCameraNameFromMac that changes the manager: the address that it has read, if
-- it has found an interface, goes into the parameters without a time and without a notice.
unfoldable pub take_mac : Option Bytes → Store → Store
take_mac none s = s
take_mac (some mac) s = record s {
  parameters = insert (codes "macAddress") mac (Store.parameters s);
}

-- The calls of the manager that change its state one by one. The parses of the settings are runs of
-- them (Camera/Settings/Calls); those of initialize, which fills in the start-up values, are not
-- among them.
pub data Call : Type 0 where
  set : ℕ → Bytes → Bytes → Call
  set_ntp : ℕ → Bytes → Call
  remove : Bytes → Call
  register : Bytes → Call
  unregister : ℕ → Call
  add_face : IdentificationFeature → Call
  remove_face : Bytes → Call
  update_face : Bytes → IdentificationFeature → Call
  update_faces : (Bytes → Option Json) → (Bytes → Writing) → Bytes → Call
  name_camera : Option Bytes → Call

-- What a call leaves; a counter of callbacks that is used up leaves the state as it is.
unfoldable pub call : Call → Store → Step
unfolding set_parameter set_ntp_server remove_parameter register_callback unregister_callback
    add_feature remove_feature update_feature update_features take_mac
call (set now k v) s = set_parameter now k v s
call (set_ntp now v) s = set_ntp_server now v s
call (remove k) s = ((remove_parameter k s).1, [])
call (register k) s = elim (register_callback k s) [ none ↦ (s, []) | some r ↦ (r.1, []) ]
call (unregister i) s = ((unregister_callback i s).1, [])
call (add_face f) s = (add_feature f s).1
call (remove_face i) s = (remove_feature i s).1
call (update_face i f) s = (update_feature i f s).1
call (update_faces parse disk t) s = (Outcome.store (update_features parse disk t s), [])
call (name_camera mac) s = (take_mac mac s, [])

unfoldable pub run : List Call → Store → Step
unfolding call
run [] s = (s, [])
run (c ∷ cs) s = then_step (call c s) (run cs)
