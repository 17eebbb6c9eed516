-- ===== src/SystemApi/Routing.antt =====
-- Which command each client function sends.
use ipc_with_cht.Prelude.{◌≡◌, refl, Bool, true, false, Option, none, some}
use ipc_with_cht.SystemApi.Command.{
  Cmd, bind_camera_report, set_hamicam_initial_info, get_cam_status_by_id, delete_camera_info,
  set_time_zone, get_time_zone, update_camera_name, set_camera_osd, set_flicker, set_microphone,
  set_night_mode, set_auto_night_vision, set_speak, set_flip_up_down, set_led, set_camera_power,
  quary_snapshot, reboot, set_cam_storage_day, set_cam_event_storage_day, format_sd_card,
  ptz_control_move, ptz_control_speed, ptz_get_control, ptz_control_tour_go, ptz_control_go_pst,
  ptz_set_preset_point, hamicam_human_tracking, hamicam_pet_tracking, get_camera_bind_wifi_info,
  upgrade_camera_ota, set_camera_ai_setting, get_camera_ai_setting, start_video_stream,
  stop_video_stream, start_audio_stream, stop_audio_stream, ptz_absolute_move, ptz_relative_move,
  ptz_continuous_move, set_ptz_home, goto_ptz_home, change_wifi,
}
use ipc_with_cht.SystemApi.Functions.{
  Function, camera, ptz, service, endpoint_of, call_bind_camera_report, call_change_wifi,
  call_set_hamicam_initial_info, call_get_cam_status_by_id, call_delete_camera_info,
  call_set_timezone, call_get_timezone, call_update_camera_name, call_set_camera_osd,
  call_set_flicker, call_set_microphone, call_set_night_mode, call_set_auto_night_vision,
  call_set_speaker, call_set_flip_up_down, call_set_led, call_set_camera_power, call_quary_snapshot,
  call_reboot, call_set_storage_day, call_set_event_storage_day, call_format_sd_card,
  call_set_ptz_control_move, call_set_ptz_absolute_move, call_set_ptz_relative_move,
  call_set_ptz_continuous_move, call_goto_ptz_home, call_set_ptz_speed, call_get_ptz_status,
  call_set_ptz_tour_go, call_set_ptz_go_preset, call_set_ptz_preset_point,
  call_set_ptz_human_tracking, call_set_ptz_pet_tracking, call_set_ptz_home,
  call_get_camera_bind_wifi_info, call_upgrade_camera_ota, call_set_camera_ai_setting,
  call_get_camera_ai_setting, call_start_video_stream, call_stop_video_stream,
  call_start_audio_stream, call_stop_audio_stream,
}

-- The function that a command is for, as their names have it.
unfoldable pub meant_for : Cmd → Option Function
meant_for bind_camera_report = some (camera call_bind_camera_report)
meant_for change_wifi = some (camera call_change_wifi)
meant_for set_hamicam_initial_info = some (camera call_set_hamicam_initial_info)
meant_for get_cam_status_by_id = some (camera call_get_cam_status_by_id)
meant_for delete_camera_info = some (camera call_delete_camera_info)
meant_for set_time_zone = some (camera call_set_timezone)
meant_for get_time_zone = some (camera call_get_timezone)
meant_for update_camera_name = some (camera call_update_camera_name)
meant_for set_camera_osd = some (camera call_set_camera_osd)
meant_for set_flicker = some (camera call_set_flicker)
meant_for set_microphone = some (camera call_set_microphone)
meant_for set_night_mode = some (camera call_set_night_mode)
meant_for set_auto_night_vision = some (camera call_set_auto_night_vision)
meant_for set_speak = some (camera call_set_speaker)
meant_for set_flip_up_down = some (camera call_set_flip_up_down)
meant_for set_led = some (camera call_set_led)
meant_for set_camera_power = some (camera call_set_camera_power)
meant_for quary_snapshot = some (camera call_quary_snapshot)
meant_for reboot = some (camera call_reboot)
meant_for set_cam_storage_day = some (camera call_set_storage_day)
meant_for set_cam_event_storage_day = some (camera call_set_event_storage_day)
meant_for format_sd_card = some (camera call_format_sd_card)
meant_for ptz_control_move = some (ptz call_set_ptz_control_move)
meant_for ptz_absolute_move = some (ptz call_set_ptz_absolute_move)
meant_for ptz_relative_move = some (ptz call_set_ptz_relative_move)
meant_for ptz_continuous_move = some (ptz call_set_ptz_continuous_move)
meant_for goto_ptz_home = some (ptz call_goto_ptz_home)
meant_for ptz_control_speed = some (ptz call_set_ptz_speed)
meant_for ptz_get_control = some (ptz call_get_ptz_status)
meant_for ptz_control_tour_go = some (ptz call_set_ptz_tour_go)
meant_for ptz_control_go_pst = some (ptz call_set_ptz_go_preset)
meant_for ptz_set_preset_point = some (ptz call_set_ptz_preset_point)
meant_for hamicam_human_tracking = some (ptz call_set_ptz_human_tracking)
meant_for hamicam_pet_tracking = some (ptz call_set_ptz_pet_tracking)
meant_for set_ptz_home = some (ptz call_set_ptz_home)
meant_for get_camera_bind_wifi_info = some (service call_get_camera_bind_wifi_info)
meant_for upgrade_camera_ota = some (service call_upgrade_camera_ota)
meant_for set_camera_ai_setting = some (service call_set_camera_ai_setting)
meant_for get_camera_ai_setting = some (service call_get_camera_ai_setting)
meant_for start_video_stream = some (service call_start_video_stream)
meant_for stop_video_stream = some (service call_stop_video_stream)
meant_for start_audio_stream = some (service call_start_audio_stream)
meant_for stop_audio_stream = some (service call_stop_audio_stream)
meant_for _ = none

-- The functions that move the camera's motors by a stPtzMoveReq, and the one that stores the home
-- position.
unfoldable pub is_ptz_extension : Function → Bool
is_ptz_extension (ptz call_set_ptz_absolute_move) = true
is_ptz_extension (ptz call_set_ptz_relative_move) = true
is_ptz_extension (ptz call_set_ptz_continuous_move) = true
is_ptz_extension (ptz call_goto_ptz_home) = true
is_ptz_extension (ptz call_set_ptz_home) = true
is_ptz_extension _ = false

-- What a function that sends the command `c` is known by: it is one of the five and `c` formats
-- the SD card, or `c` is the command that is meant for it.
abbrev Routes : Function → Cmd → Bool → Type 0
Routes f c true = c ≡ format_sd_card
Routes f c false = meant_for c ≡ some f

-- Every function sends the command that is meant for it, except the five functions for the motors
-- setPtzAbsoluteMove, setPtzRelativeMove, setPtzContinuousMove, gotoPtzHome and setPtzHome: these
-- send the command that formats the SD card.
pub endpoint_of-Routes : (f : Function) → Routes f (endpoint_of f).command (is_ptz_extension f)
unfolding endpoint_of meant_for is_ptz_extension
endpoint_of-Routes (camera call_bind_camera_report) = refl
endpoint_of-Routes (camera call_change_wifi) = refl
endpoint_of-Routes (camera call_set_hamicam_initial_info) = refl
endpoint_of-Routes (camera call_get_cam_status_by_id) = refl
endpoint_of-Routes (camera call_delete_camera_info) = refl
endpoint_of-Routes (camera call_set_timezone) = refl
endpoint_of-Routes (camera call_get_timezone) = refl
endpoint_of-Routes (camera call_update_camera_name) = refl
endpoint_of-Routes (camera call_set_camera_osd) = refl
endpoint_of-Routes (camera call_set_flicker) = refl
endpoint_of-Routes (camera call_set_microphone) = refl
endpoint_of-Routes (camera call_set_night_mode) = refl
endpoint_of-Routes (camera call_set_auto_night_vision) = refl
endpoint_of-Routes (camera call_set_speaker) = refl
endpoint_of-Routes (camera call_set_flip_up_down) = refl
endpoint_of-Routes (camera call_set_led) = refl
endpoint_of-Routes (camera call_set_camera_power) = refl
endpoint_of-Routes (camera call_quary_snapshot) = refl
endpoint_of-Routes (camera call_reboot) = refl
endpoint_of-Routes (camera call_set_storage_day) = refl
endpoint_of-Routes (camera call_set_event_storage_day) = refl
endpoint_of-Routes (camera call_format_sd_card) = refl
endpoint_of-Routes (ptz call_set_ptz_control_move) = refl
endpoint_of-Routes (ptz call_set_ptz_absolute_move) = refl
endpoint_of-Routes (ptz call_set_ptz_relative_move) = refl
endpoint_of-Routes (ptz call_set_ptz_continuous_move) = refl
endpoint_of-Routes (ptz call_goto_ptz_home) = refl
endpoint_of-Routes (ptz call_set_ptz_speed) = refl
endpoint_of-Routes (ptz call_get_ptz_status) = refl
endpoint_of-Routes (ptz call_set_ptz_tour_go) = refl
endpoint_of-Routes (ptz call_set_ptz_go_preset) = refl
endpoint_of-Routes (ptz call_set_ptz_preset_point) = refl
endpoint_of-Routes (ptz call_set_ptz_human_tracking) = refl
endpoint_of-Routes (ptz call_set_ptz_pet_tracking) = refl
endpoint_of-Routes (ptz call_set_ptz_home) = refl
endpoint_of-Routes (service call_get_camera_bind_wifi_info) = refl
endpoint_of-Routes (service call_upgrade_camera_ota) = refl
endpoint_of-Routes (service call_set_camera_ai_setting) = refl
endpoint_of-Routes (service call_get_camera_ai_setting) = refl
endpoint_of-Routes (service call_start_video_stream) = refl
endpoint_of-Routes (service call_stop_video_stream) = refl
endpoint_of-Routes (service call_start_audio_stream) = refl
endpoint_of-Routes (service call_stop_audio_stream) = refl
