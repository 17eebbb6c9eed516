-- ===== src/Camera/Settings.antt =====
-- The settings that the server sends as four JSON texts: parseAndSaveInitialInfo of
-- camera_parameters_manager.cpp and the functions that it calls. The clock is read once for each
-- call, rapidjson's parser is an argument.
pub mod Keys
pub mod Ntp
pub mod Read
pub mod Calls
use ipc_with_cht.Prelude.{
  ℕ, Bool, true, false, ◌&&◌, ◌||◌, not, Option, none, some, List, [], ◌∷◌, ◌++◌, leb, ltb, length,
  is_empty, map, if◌then◌else◌,
}
use ipc_with_cht.Prelude.Bytes.{Bytes, same_text}
use ipc_with_cht.Prelude.Text.{codes}
use ipc_with_cht.Prelude.Dict.{Dict}
use ipc_with_cht.Prelude.Integers.{ℤ, pos, negsuc, print_int, parse_int}
use ipc_with_cht.Camera.Json.{Json, object, Members, text_member, int_member, object_member}
use ipc_with_cht.Camera.Store.{
  Store, Step, then_step, set_parameter, set_ntp_server, get_ntp_server, get_parameter,
}
use ipc_with_cht.Camera.Faces.{File, Writing, Outcome, update_features}
use ipc_with_cht.Camera.Settings.Keys.{
  info_texts, settings_texts, settings_ints, ai_texts, ai_ints, fences, system_texts,
}

-- `HasMember && IsString`, then `setParameter`.
unfoldable pub set_text_member : ℕ → Bytes → Members → Store → Step
unfolding set_parameter
set_text_member now k m s = elim (text_member k m) [
  | none ↦ (s, [])
  | some t ↦ set_parameter now k t s
]

unfoldable pub set_text_members : ℕ → List Bytes → Members → Store → Step
unfolding set_text_member
set_text_members now [] m s = (s, [])
set_text_members now (k ∷ ks) m s =
    then_step (set_text_member now k m s) (set_text_members now ks m)

unfoldable pub set_int_member : ℕ → Bytes → Members → Store → Step
unfolding set_parameter print_int
set_int_member now k m s = elim (int_member k m) [
  | none ↦ (s, [])
  | some i ↦ set_parameter now k (print_int i) s
]

unfoldable pub set_int_members : ℕ → List Bytes → Members → Store → Step
unfolding set_int_member
set_int_members now [] m s = (s, [])
set_int_members now (k ∷ ks) m s = then_step (set_int_member now k m s) (set_int_members now ks m)

-- A corner of the fence: both coordinates or none.
unfoldable pub set_fence : ℕ → Bytes → Members → Store → Step
unfolding set_parameter print_int
set_fence now k m s = elim (object_member k m) [
  | none ↦ (s, [])
  | some p ↦ elim (int_member (codes "x") p) [
    | none ↦ (s, [])
    | some x ↦ elim (int_member (codes "y") p) [
      | none ↦ (s, [])
      | some y ↦
          then_step (set_parameter now (k ++ codes "_x") (print_int x) s)
            (set_parameter now (k ++ codes "_y") (print_int y))
    ]
  ]
]

unfoldable pub set_fences : ℕ → List Bytes → Members → Store → Step
unfolding set_fence
set_fences now [] m s = (s, [])
set_fences now (k ∷ ks) m s = then_step (set_fence now k m s) (set_fences now ks m)

-- What a parse leaves: its result, the step, the servers that `syncTimeWithNtp` was called with, and
-- the new folder of faces.
pub record Applied : Type 0 where
  pub ok : Bool
  pub step : Step
  pub syncs : List Bytes
  pub folder : Option (List File)

abbrev pub applied : Bool → Step → Applied
applied b t = record { ok = b; step = t; syncs = []; folder = none }

-- `jsonStr.empty() || jsonStr == "{}"`
abbrev pub is_blank_text : Bytes → Bool
is_blank_text s = is_empty s || same_text s (codes "{}")

-- The server is set, and the clock synchronised if it is not the one that was set before.
unfoldable pub change_ntp_server : ℕ → Bytes → Store → Step × List Bytes
unfolding set_ntp_server get_ntp_server
change_ntp_server now new s =
    let current = get_ntp_server s in
    let t = set_ntp_server now new s in
    if not (same_text new current) && not (is_empty new) then (t, new ∷ []) else (t, [])

-- The part of parseHamiSystemSettings behind the two loops.
unfoldable pub handle_ntp_server : ℕ → Option Bytes → Step → Applied
unfolding change_ntp_server
handle_ntp_server now none t = applied true t
handle_ntp_server now (some new) t =
    let ((s', ns), syncs) = change_ntp_server now new t.0 in
    record { ok = true; step = (s', t.1 ++ ns); syncs = syncs; folder = none }

unfoldable pub apply_system_settings : ℕ → Members → Store → Applied
unfolding set_int_member set_text_members handle_ntp_server
apply_system_settings now m s = handle_ntp_server now (text_member (codes "ntpServer") m) (
    then_step (set_text_members now system_texts m s)
      (set_int_member now (codes "otaQueryInterval") m))

-- What the parser made of a text: one that does not parse is refused. `none`: `HasMember` of a value
-- that is no object, which rapidjson asserts against.
abbrev pub with_parsed : (Members → Store → Applied) → Option Json → Store → Option Applied
with_parsed f none s = some (applied false (s, []))
with_parsed f (some (object m)) s = some (f m s)
with_parsed f (some v) s = none

module _ (parse : Bytes → Option Json) (now : ℕ) where
  -- A text with nothing in it is passed over.
  abbrev pub with_members : (Members → Store → Applied) → Bytes → Store → Option Applied
  with_members f t s =
      if is_blank_text t then some (applied true (s, [])) else with_parsed f (parse t) s

  unfoldable pub parse_hami_cam_info : Bytes → Store → Option Applied
  unfolding set_int_member set_text_members
  parse_hami_cam_info = with_members (λ m s.
      applied true
        (then_step (set_int_member now (codes "camSid") m s) (set_text_members now info_texts m)))

  unfoldable pub parse_hami_settings : Bytes → Store → Option Applied
  unfolding set_int_members set_text_members
  parse_hami_settings = with_members (λ m s.
      applied true
        (then_step (set_text_members now settings_texts m s) (set_int_members now settings_ints m)))

  unfoldable pub parse_hami_system_settings : Bytes → Store → Option Applied
  unfolding apply_system_settings
  parse_hami_system_settings = with_members (apply_system_settings now)

  module _ (disk : Bytes → Writing) where
    unfoldable pub apply_ai_settings : Bytes → Members → Store → Applied
    unfolding set_text_members set_int_members set_fences update_features
    apply_ai_settings t m s =
        let step = then_step (set_parameter now (codes "aiSettings") t s) (λ s1.
          then_step (set_text_members now ai_texts m s1)
            (λ s2. then_step (set_int_members now ai_ints m s2) (set_fences now fences m))) in
        let faces = update_features parse disk t step.0 in
        record {
          ok = true;
          step = (Outcome.store faces, step.1);
          syncs = [];
          folder = Outcome.folder faces;
        }

    -- Here a value that is no object is refused like a text that does not parse.
    unfoldable pub parse_hami_ai_settings : Bytes → Store → Applied
    unfolding apply_ai_settings
    parse_hami_ai_settings t s = if is_blank_text t then applied true (s, []) else elim (parse t) [
      | some (object m) ↦ apply_ai_settings t m s
      | _ ↦ applied false (s, [])
    ]
