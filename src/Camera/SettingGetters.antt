-- ===== src/Camera/SettingGetters.antt =====
-- The getters of the settings, which camera_parameters_manager.cpp has one function each for.
pub mod Taken
use ipc_with_cht.Prelude.{ℕ, Bool, true, false, not, Option, none, some, List, [], ◌∷◌, ◌++◌, ◌==◌}
use ipc_with_cht.Prelude.Bytes.{Bytes}
use ipc_with_cht.Prelude.Text.{codes}
use ipc_with_cht.Prelude.Integers.{ℤ, pos, negsuc, parse_int}
use ipc_with_cht.Camera.Store.{Store, get_parameter}

-- The getters of a text, by the function that they are.
pub data TextSetting : Type 0 where
  night_mode auto_night_vision status_indicator_light is_flip_up_down flicker image_quality_str :
      TextSetting
  is_microphone is_speak schedule_on schedule_sun schedule_mon schedule_tue : TextSetting
  schedule_wed schedule_thu schedule_fri schedule_sat power_on alert_on : TextSetting
  vmd ad last_ptz_command ptz_status ptz_speed ptz_tour_stay_time : TextSetting
  ptz_tour_sequence position_name1 position_name2 position_name3 position_name4 fence_dir :
      TextSetting
  ota_domain_name bucket_name : TextSetting

unfoldable pub text_setting_key : TextSetting → Bytes
text_setting_key night_mode = codes "nightMode"
text_setting_key auto_night_vision = codes "autoNightVision"
text_setting_key status_indicator_light = codes "statusIndicatorLight"
text_setting_key is_flip_up_down = codes "isFlipUpDown"
text_setting_key flicker = codes "flicker"
text_setting_key image_quality_str = codes "imageQuality"
text_setting_key is_microphone = codes "isMicrophone"
text_setting_key is_speak = codes "isSpeak"
text_setting_key schedule_on = codes "scheduleOn"
text_setting_key schedule_sun = codes "ScheduleSun"
text_setting_key schedule_mon = codes "scheduleMon"
text_setting_key schedule_tue = codes "scheduleTue"
text_setting_key schedule_wed = codes "scheduleWed"
text_setting_key schedule_thu = codes "scheduleThu"
text_setting_key schedule_fri = codes "scheduleFri"
text_setting_key schedule_sat = codes "scheduleSat"
text_setting_key power_on = codes "powerOn"
text_setting_key alert_on = codes "alertOn"
text_setting_key vmd = codes "vmd"
text_setting_key ad = codes "ad"
text_setting_key last_ptz_command = codes "lastPtzCommand"
text_setting_key ptz_status = codes "ptzStatus"
text_setting_key ptz_speed = codes "ptzSpeed"
text_setting_key ptz_tour_stay_time = codes "ptzTourStayTime"
text_setting_key ptz_tour_sequence = codes "ptzTourSequence"
text_setting_key position_name1 = codes "positionName1"
text_setting_key position_name2 = codes "positionName2"
text_setting_key position_name3 = codes "positionName3"
text_setting_key position_name4 = codes "positionName4"
text_setting_key fence_dir = codes "fenceDir"
text_setting_key ota_domain_name = codes "otaDomainName"
text_setting_key bucket_name = codes "bucketName"

unfoldable pub text_setting_default : TextSetting → Bytes
text_setting_default night_mode = codes "0"
text_setting_default auto_night_vision = codes "0"
text_setting_default status_indicator_light = codes "1"
text_setting_default is_flip_up_down = codes "0"
text_setting_default flicker = codes "1"
text_setting_default image_quality_str = codes "2"
text_setting_default is_microphone = codes "1"
text_setting_default is_speak = codes "1"
text_setting_default schedule_on = codes "0"
text_setting_default schedule_sun = codes "0000-2359"
text_setting_default schedule_mon = codes "0840-1730"
text_setting_default schedule_tue = codes "0840-1730"
text_setting_default schedule_wed = codes "0840-1730"
text_setting_default schedule_thu = codes "0840-1730"
text_setting_default schedule_fri = codes "0840-1730"
text_setting_default schedule_sat = codes "0000-2359"
text_setting_default power_on = codes "1"
text_setting_default alert_on = codes "1"
text_setting_default vmd = codes "1"
text_setting_default ad = codes "1"
text_setting_default last_ptz_command = codes "stop"
text_setting_default ptz_status = codes "0"
text_setting_default ptz_speed = codes "1"
text_setting_default ptz_tour_stay_time = codes "3"
text_setting_default ptz_tour_sequence = codes "1,2,3,4"
text_setting_default position_name1 = 230 ∷ 184 ∷ 172 ∷ 232 ∷ 169 ∷ 166 ∷ 233 ∷ 187 ∷ 158 ∷ 49 ∷ []
text_setting_default position_name2 = 230 ∷ 184 ∷ 172 ∷ 232 ∷ 169 ∷ 166 ∷ 233 ∷ 187 ∷ 158 ∷ 50 ∷ []
text_setting_default position_name3 = 230 ∷ 184 ∷ 172 ∷ 232 ∷ 169 ∷ 166 ∷ 233 ∷ 187 ∷ 158 ∷ 51 ∷ []
text_setting_default position_name4 = 230 ∷ 184 ∷ 172 ∷ 232 ∷ 169 ∷ 166 ∷ 233 ∷ 187 ∷ 158 ∷ 52 ∷ []
text_setting_default fence_dir = codes "1"
text_setting_default ota_domain_name = codes "ota.example.com"
text_setting_default bucket_name = codes "default-bucket"

unfoldable pub text_setting : TextSetting → Store → Bytes
unfolding get_parameter text_setting_key text_setting_default
text_setting f s = get_parameter (text_setting_key f) (text_setting_default f) s

-- The getters of an `int`.
pub data IntSetting : Type 0 where
  microphone_sensitivity speak_volume storage_day event_storage_day power human_tracking :
      IntSetting
  pet_tracking vmd_sen ad_sen human_sen face_sen fence_sen : IntSetting
  pet_sen ad_baby_cry_sen ad_speech_sen ad_alarm_sen ad_dog_sen ad_cat_sen : IntSetting
  fall_sen fall_time ota_query_interval : IntSetting

unfoldable pub int_setting_key : IntSetting → Bytes
int_setting_key microphone_sensitivity = codes "microphoneSensitivity"
int_setting_key speak_volume = codes "speakVolume"
int_setting_key storage_day = codes "storageDay"
int_setting_key event_storage_day = codes "eventStorageDay"
int_setting_key power = codes "power"
int_setting_key human_tracking = codes "humanTracking"
int_setting_key pet_tracking = codes "petTracking"
int_setting_key vmd_sen = codes "vmdSen"
int_setting_key ad_sen = codes "adSen"
int_setting_key human_sen = codes "humanSen"
int_setting_key face_sen = codes "faceSen"
int_setting_key fence_sen = codes "fenceSen"
int_setting_key pet_sen = codes "petSen"
int_setting_key ad_baby_cry_sen = codes "adBabyCrySen"
int_setting_key ad_speech_sen = codes "adSpeechSen"
int_setting_key ad_alarm_sen = codes "adAlarmSen"
int_setting_key ad_dog_sen = codes "adDogSen"
int_setting_key ad_cat_sen = codes "adCatSen"
int_setting_key fall_sen = codes "fallSen"
int_setting_key fall_time = codes "fallTime"
int_setting_key ota_query_interval = codes "otaQueryInterval"

unfoldable pub int_setting_default : IntSetting → Bytes
int_setting_default microphone_sensitivity = codes "5"
int_setting_default speak_volume = codes "50"
int_setting_default storage_day = codes "7"
int_setting_default event_storage_day = codes "14"
int_setting_default power = codes "100"
int_setting_default human_tracking = codes "0"
int_setting_default pet_tracking = codes "0"
int_setting_default vmd_sen = codes "1"
int_setting_default ad_sen = codes "1"
int_setting_default human_sen = codes "1"
int_setting_default face_sen = codes "1"
int_setting_default fence_sen = codes "1"
int_setting_default pet_sen = codes "1"
int_setting_default ad_baby_cry_sen = codes "1"
int_setting_default ad_speech_sen = codes "1"
int_setting_default ad_alarm_sen = codes "1"
int_setting_default ad_dog_sen = codes "1"
int_setting_default ad_cat_sen = codes "1"
int_setting_default fall_sen = codes "1"
int_setting_default fall_time = codes "1"
int_setting_default ota_query_interval = codes "3600"

-- `none`: `stoi` throws, and the getter does not catch it.
unfoldable pub int_setting : IntSetting → Store → Option ℤ
unfolding get_parameter int_setting_key int_setting_default parse_int
int_setting f s = parse_int (get_parameter (int_setting_key f) (int_setting_default f) s)

-- The getters of an alert, which is on by default.
pub data AlertSetting : Type 0 where
  vmd_alert human_alert pet_alert ad_alert fence_alert face_alert : AlertSetting
  fall_alert ad_baby_cry_alert ad_speech_alert ad_alarm_alert ad_dog_alert ad_cat_alert :
      AlertSetting

unfoldable pub alert_key : AlertSetting → Bytes
alert_key vmd_alert = codes "vmdAlert"
alert_key human_alert = codes "humanAlert"
alert_key pet_alert = codes "petAlert"
alert_key ad_alert = codes "adAlert"
alert_key fence_alert = codes "fenceAlert"
alert_key face_alert = codes "faceAlert"
alert_key fall_alert = codes "fallAlert"
alert_key ad_baby_cry_alert = codes "adBabyCryAlert"
alert_key ad_speech_alert = codes "adSpeechAlert"
alert_key ad_alarm_alert = codes "adAlarmAlert"
alert_key ad_dog_alert = codes "adDogAlert"
alert_key ad_cat_alert = codes "adCatAlert"

abbrev pub is_nonzero : ℤ → Bool
is_nonzero (pos n) = not (n == 0)
is_nonzero (negsuc n) = true

unfoldable pub alert_setting : AlertSetting → Store → Option Bool
unfolding get_parameter alert_key parse_int
alert_setting f s = elim (parse_int (get_parameter (alert_key f) (codes "1") s)) [
  | none ↦ none
  | some i ↦ some (is_nonzero i)
]

-- The corners of the fence, as the bytes of their names and the defaults of x and y.
pub data FenceCorner : Type 0 where
  fence_pos1 fence_pos2 fence_pos3 fence_pos4 : FenceCorner

unfoldable pub fence_key : FenceCorner → Bytes
fence_key fence_pos1 = codes "fencePos1"
fence_key fence_pos2 = codes "fencePos2"
fence_key fence_pos3 = codes "fencePos3"
fence_key fence_pos4 = codes "fencePos4"

unfoldable pub fence_defaults : FenceCorner → Bytes × Bytes
fence_defaults fence_pos1 = (codes "10", codes "10")
fence_defaults fence_pos2 = (codes "10", codes "90")
fence_defaults fence_pos3 = (codes "90", codes "90")
fence_defaults fence_pos4 = (codes "90", codes "10")

unfoldable pub fence_position : FenceCorner → Store → Option (ℤ × ℤ)
unfolding get_parameter fence_key fence_defaults parse_int
fence_position f s =
    let (dx, dy) = fence_defaults f in
    elim (parse_int (get_parameter (fence_key f ++ codes "_x") dx s)) [
      | none ↦ none
      | some x ↦ elim (parse_int (get_parameter (fence_key f ++ codes "_y") dy s)) [
        | none ↦ none
        | some y ↦ some (x, y)
      ]
    ]
