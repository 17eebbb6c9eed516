-- ===== src/Camera/Store.antt =====
-- The parameters that CameraParametersManager of
-- implement/zwsystemInterface/test_ipc/camera_parameters_manager.cpp keeps, and who is told of a
-- change. Each operation holds the manager's lock, so it is one step. The clock is an argument.
pub mod Values
use ipc_with_cht.Prelude.{
  ℕ, suc, ◌+◌, ◌-◌, ◌/◌, ◌^◌, Bool, true, false, ◌||◌, Option, none, some, List, [], ◌∷◌, ◌++◌,
  ◌==◌, ltb, leb, if◌then◌else◌, is_empty, not, map,
}
use ipc_with_cht.Prelude.Bytes.{Bytes, same_text}
use ipc_with_cht.Prelude.Text.{codes}
use ipc_with_cht.Prelude.Dict.{Dict, lookup, insert, erase}
use ipc_with_cht.Prelude.Integers.{ℤ}

-- `CallbackInfo`, the function left out: a call of it is a `Notice`.
pub record Callback : Type 0 where
  pub id : ℕ
  pub key : Bytes

pub record IdentificationFeature : Type 0 where
  pub id : Bytes
  pub name : Bytes
  pub face_features : Bytes
  pub verify_level : ℤ
  pub create_time : Bytes
  pub update_time : Bytes

-- The state: m_parameters, m_parameterUpdateTimes, m_callbacks, m_nextCallbackId and
-- m_identificationFeatures.
pub record Store : Type 0 where
  pub parameters : Dict Bytes
  pub times : Dict ℕ
  pub callbacks : List Callback
  pub next_id : ℕ
  pub features : List IdentificationFeature

unfoldable pub new : Store
new = record { parameters = []; times = []; callbacks = []; next_id = 1; features = [] }

-- A callback of this id is called with a key and a value.
pub record Notice : Type 0 where
  pub to : ℕ
  pub key : Bytes
  pub value : Bytes

-- What a step leaves, and the callbacks that it calls, in order.
abbrev pub Step : Type 0
Step = Store × List Notice

-- One step behind another.
abbrev pub then_step : Step → (Store → Step) → Step
then_step (s, ns) f = let (s', ms) = f s in (s', ns ++ ms)

abbrev pub wants : Bytes → Callback → Bool
wants k c = is_empty (Callback.key c) || same_text (Callback.key c) k

-- The callbacks are copied out and called in the order in which they were registered.
unfoldable pub notified : Bytes → Bytes → List Callback → List Notice
notified k v [] = []
notified k v (c ∷ cs) =
    let rest = notified k v cs in
    if wants k c then record { to = Callback.id c; key = k; value = v } ∷ rest else rest

unfoldable pub notify_parameter_changed : Bytes → Bytes → Store → List Notice
unfolding notified
notify_parameter_changed k v s = notified k v (Store.callbacks s)

-- The two maps written at a time.
unfoldable pub write : ℕ → Bytes → Bytes → Store → Store
write now k v s = record {
  parameters = insert k v (Store.parameters s);
  times = insert k now (Store.times s);
  callbacks = Store.callbacks s;
  next_id = Store.next_id s;
  features = Store.features s;
}

-- `it == end() || it->second != strValue`
abbrev pub differs : Option Bytes → Bytes → Bool
differs none v = true
differs (some w) v = not (same_text w v)

-- `setParameter` with the text that the value was turned into.
unfoldable pub set_parameter : ℕ → Bytes → Bytes → Store → Step
unfolding write notify_parameter_changed
set_parameter now k v s =
    let s' = write now k v s in
    if differs (lookup k (Store.parameters s)) v
    then (s', notify_parameter_changed k v s')
    else (s', [])

-- `setNtpServer`, which tells of the value whether it changed or not.
unfoldable pub set_ntp_server : ℕ → Bytes → Store → Step
unfolding write notify_parameter_changed
set_ntp_server now v s =
    let s' = write now (codes "ntpServer") v s in
    (s', notify_parameter_changed (codes "ntpServer") v s')

abbrev pub default_to {ℓ} : {A : Type ℓ} → A → Option A → A
default_to d none = d
default_to d (some a) = a

-- `getParameter` of a text.
unfoldable pub get_parameter : Bytes → Bytes → Store → Bytes
get_parameter k d s = default_to d (lookup k (Store.parameters s))

abbrev pub is_some {ℓ} : {A : Type ℓ} → Option A → Bool
is_some none = false
is_some (some a) = true

unfoldable pub get_ntp_server : Store → Bytes
unfolding get_parameter
get_ntp_server s = get_parameter (codes "ntpServer") (codes "tock.stdtime.gov.tw") s

unfoldable pub has_parameter : Bytes → Store → Bool
has_parameter k s = is_some (lookup k (Store.parameters s))

unfoldable pub remove_parameter : Bytes → Store → Bool × Store
remove_parameter k s =
    if is_some (lookup k (Store.parameters s))
    then (
      true,
      record {
        parameters = erase k (Store.parameters s);
        times = erase k (Store.times s);
        callbacks = Store.callbacks s;
        next_id = Store.next_id s;
        features = Store.features s;
      },
    )
    else (false, s)

unfoldable pub get_all_parameters : Store → Dict Bytes
get_all_parameters s = Store.parameters s

-- `m_callbacks.push_back(info)` behind `m_nextCallbackId++`.
abbrev pub with_callback : Bytes → Store → Store
with_callback k s = record {
  parameters = Store.parameters s;
  times = Store.times s;
  callbacks = Store.callbacks s ++ record { id = Store.next_id s; key = k } ∷ [];
  next_id = suc (Store.next_id s);
  features = Store.features s;
}

-- The id, and the store. `none`: the counter would leave the range of an `int`, which is undefined
-- behaviour.
unfoldable pub register_callback : Bytes → Store → Option (ℕ × Store)
register_callback k s =
    if ltb (Store.next_id s) (2 ^ 31 - 1) then some (Store.next_id s, with_callback k s) else none

-- The loop of `unregisterParameterChangeCallback`: the list without the first of this id.
unfoldable pub erase_callback : ℕ → List Callback → Option (List Callback)
erase_callback i [] = none
erase_callback i (c ∷ cs) =
    let rest = erase_callback i cs in
    if Callback.id c == i then some cs else elim rest [ none ↦ none | some ds ↦ some (c ∷ ds) ]

abbrev pub with_callbacks : List Callback → Store → Store
with_callbacks cs s = record {
  parameters = Store.parameters s;
  times = Store.times s;
  callbacks = cs;
  next_id = Store.next_id s;
  features = Store.features s;
}

unfoldable pub unregister_callback : ℕ → Store → Bool × Store
unfolding erase_callback
unregister_callback i s = elim (erase_callback i (Store.callbacks s)) [
  | none ↦ (false, s)
  | some cs ↦ (true, with_callbacks cs s)
]

-- The epoch, if there is no such parameter.
unfoldable pub get_parameter_update_time : Bytes → Store → ℕ
get_parameter_update_time k s = default_to 0 (lookup k (Store.times s))

-- Times are in nanoseconds, `max_age` in milliseconds. A clock set back makes the age negative,
-- here 0: not stale in either case.
unfoldable pub is_parameter_stale : ℕ → Bytes → ℕ → Store → Bool
is_parameter_stale now k max_age s = elim (lookup k (Store.times s)) [
  | none ↦ true
  | some t ↦ ltb max_age ((now - t) / 10 ^ 6)
]
