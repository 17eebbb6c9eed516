-- ===== src/Camera/Initial.antt =====
-- The settings taken as a whole: parseAndSaveInitialInfo, parseAndSaveInitialInfoWithSync and
-- validateParameter of camera_parameters_manager.cpp. That a file is written is a flag of the
-- result; what stands in it is not modelled.
pub mod Checked
use ipc_with_cht.Prelude.{
  ℕ, Bool, true, false, ◌&&◌, ◌||◌, not, Option, none, some, List, [], ◌∷◌, ◌++◌, leb, length,
  is_empty, if◌then◌else◌,
}
use ipc_with_cht.Prelude.Bytes.{Bytes, same_text}
use ipc_with_cht.Prelude.Text.{codes}
use ipc_with_cht.Prelude.Dict.{Dict}
use ipc_with_cht.Prelude.Integers.{ℤ, pos, negsuc, parse_int}
use ipc_with_cht.Camera.Json.{Json}
use ipc_with_cht.Camera.Store.{Store, Step, get_parameter}
use ipc_with_cht.Camera.Faces.{File, Writing}
use ipc_with_cht.Camera.Settings.{
  Applied, parse_hami_cam_info, parse_hami_settings, parse_hami_ai_settings,
  parse_hami_system_settings,
}

-- Every time of the map set to one time.
unfoldable pub restamp : ℕ → Dict ℕ → Dict ℕ
restamp now [] = []
restamp now ((k, t) ∷ d) = (k, now) ∷ restamp now d

abbrev pub restamped : ℕ → Store → Store
restamped now s = record {
  parameters = Store.parameters s;
  times = restamp now (Store.times s);
  callbacks = Store.callbacks s;
  next_id = Store.next_id s;
  features = Store.features s;
}

-- The four parses, one behind the other; whether all went well.
pub record Initial : Type 0 where
  pub ok : Bool
  pub step : Step
  pub syncs : List Bytes
  pub folder : Option (List File)

-- What the four have left, all entries dated anew. The file is written exactly if `ok`.
unfoldable pub finish : ℕ → Applied → Applied → Applied → Applied → Initial
unfolding restamp
finish now a b c d = record {
  ok = Applied.ok a && Applied.ok b && Applied.ok c && Applied.ok d;
  step = (
    restamped now (Applied.step d).0,
    (Applied.step a).1 ++ (Applied.step b).1 ++ (Applied.step c).1 ++ (Applied.step d).1,
  );
  syncs = Applied.syncs d;
  folder = Applied.folder c;
}

-- The four texts.
pub record Texts : Type 0 where
  pub cam_info : Bytes
  pub settings : Bytes
  pub ai_settings : Bytes
  pub system_settings : Bytes

module _ (parse : Bytes → Option Json) (disk : Bytes → Writing) (now : ℕ) where
  -- `none`: an assertion of rapidjson has ended the process.
  unfoldable pub parse_and_save_initial_info : Texts → Store → Option Initial
  unfolding parse_hami_cam_info parse_hami_settings parse_hami_ai_settings
      parse_hami_system_settings finish
  parse_and_save_initial_info t s = elim (parse_hami_cam_info parse now (Texts.cam_info t) s) [
    | none ↦ none
    | some a ↦ elim (parse_hami_settings parse now (Texts.settings t) (Applied.step a).0) [
      | none ↦ none
      | some b ↦
          let c = parse_hami_ai_settings parse now disk (Texts.ai_settings t) (Applied.step b).0 in
          elim (parse_hami_system_settings parse now (Texts.system_settings t) (Applied.step c).0) [
            | none ↦ none
            | some d ↦ some (finish now a b c d)
          ]
    ]
  ]

-- `tz >= 0 && tz <= 51`; an exception of `stoi` is false.
abbrev pub is_timezone : Option ℤ → Bool
is_timezone (some (pos n)) = leb n 51
is_timezone (some (negsuc n)) = false
is_timezone none = false

abbrev pub is_flag : Bytes → Bool
is_flag v = same_text v (codes "0") || same_text v (codes "1")

unfoldable pub validate_parameter : Bytes → Bytes → Bool
unfolding parse_int
validate_parameter k v =
    if same_text k (codes "camId")
    then not (is_empty v) && leb 10 (length v)
    else (if same_text k (codes "activeStatus")
        then is_flag v
        else (if same_text k (codes "deviceStatus")
            then is_flag v
            else (if same_text k (codes "timezone") then is_timezone (parse_int v) else true)))

-- getCameraId and getActiveStatus.
unfoldable pub camera_id : Store → Bytes
unfolding get_parameter
camera_id s = get_parameter (codes "camId") [] s

unfoldable pub active_status : Store → Bytes
unfolding get_parameter
active_status s = get_parameter (codes "activeStatus") (codes "0") s

-- The result of parseAndSaveInitialInfoWithSync behind the parses; `saved` says whether the file
-- could be written.
unfoldable pub accept : Bool → Initial → Bool
unfolding validate_parameter camera_id active_status
accept saved i =
    if Initial.ok i
    then (if validate_parameter (codes "camId") (camera_id (Initial.step i).0)
          && validate_parameter (codes "activeStatus") (active_status (Initial.step i).0)
        then saved
        else false)
    else false
