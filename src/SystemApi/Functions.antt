-- ===== src/SystemApi/Functions.antt =====
-- The functions of implement/zwsystemInterface/zwsystem_ipc_client.cpp, each with the command, the
-- request and the reply that it instantiates the exchange with.
use ipc_with_cht.Prelude.{List}
use ipc_with_cht.SystemApi.Layout.{Field}
use ipc_with_cht.SystemApi.Command.{
  Cmd, bind_camera_report, set_hamicam_initial_info, get_cam_status_by_id, delete_camera_info,
  set_time_zone, get_time_zone, update_camera_name, set_camera_osd, set_flicker, set_microphone,
  set_night_mode, set_auto_night_vision, set_speak, set_flip_up_down, set_led, set_camera_power,
  quary_snapshot, reboot, set_cam_storage_day, set_cam_event_storage_day, format_sd_card,
  ptz_control_move, ptz_control_speed, ptz_get_control, ptz_control_tour_go, ptz_control_go_pst,
  ptz_set_preset_point, hamicam_human_tracking, hamicam_pet_tracking, get_camera_bind_wifi_info,
  upgrade_camera_ota, set_camera_ai_setting, get_camera_ai_setting, start_video_stream,
  stop_video_stream, start_audio_stream, stop_audio_stream, change_wifi,
}
use ipc_with_cht.SystemApi.CameraRecords.{
  bind_camera_report_rep, cam_status_by_id_rep, camera_ai_setting, change_wifi_rep, change_wifi_req,
  date_time_info, default_record, get_camera_bind_wifi_info_rep, set_auto_night_vision_req,
  set_camera_osd_req, set_camera_power_req, set_flicker_req, set_flip_up_down_req,
  set_hamicam_initial_info_req, set_led_req, set_microphone_req, set_night_mode_req,
  set_speaker_req, set_storage_day_req, update_camera_name_req, upgrade_camera_ota_req,
}
use ipc_with_cht.SystemApi.PtzRecords.{
  get_ptz_status_rep, ptz_control_move_req, ptz_go_preset_req, ptz_move_req, ptz_set_preset_req,
  ptz_set_tracking_req, ptz_tour_go_req, set_ptz_home_rep, set_ptz_speed_req,
}
use ipc_with_cht.SystemApi.StreamRecords.{
  start_audio_stream_rep, start_audio_stream_req, start_video_stream_rep, start_video_stream_req,
  stop_video_stream_record,
}

pub record Endpoint : Type 0 where
  pub command : Cmd
  pub request : List Field
  pub reply : List Field

abbrev pub endpoint : Cmd → List Field → List Field → Endpoint
endpoint c req rep = record { command = c; request = req; reply = rep }

-- zwsystem_ipc_ and the name, without the prefix.
pub data CameraFunction : Type 0 where
  call_bind_camera_report call_change_wifi call_set_hamicam_initial_info : CameraFunction
  call_get_cam_status_by_id call_delete_camera_info call_set_timezone : CameraFunction
  call_get_timezone call_update_camera_name call_set_camera_osd call_set_flicker : CameraFunction
  call_set_microphone call_set_night_mode call_set_auto_night_vision : CameraFunction
  call_set_speaker call_set_flip_up_down call_set_led call_set_camera_power : CameraFunction
  call_quary_snapshot call_reboot call_set_storage_day : CameraFunction
  call_set_event_storage_day call_format_sd_card : CameraFunction

-- zwsystem_ipc_ and the name, without the prefix.
pub data PtzFunction : Type 0 where
  call_set_ptz_control_move call_set_ptz_absolute_move : PtzFunction
  call_set_ptz_relative_move call_set_ptz_continuous_move call_goto_ptz_home : PtzFunction
  call_set_ptz_speed call_get_ptz_status call_set_ptz_tour_go : PtzFunction
  call_set_ptz_go_preset call_set_ptz_preset_point call_set_ptz_human_tracking : PtzFunction
  call_set_ptz_pet_tracking call_set_ptz_home : PtzFunction

-- zwsystem_ipc_ and the name, without the prefix.
pub data ServiceFunction : Type 0 where
  call_get_camera_bind_wifi_info call_upgrade_camera_ota : ServiceFunction
  call_set_camera_ai_setting call_get_camera_ai_setting call_start_video_stream : ServiceFunction
  call_stop_video_stream call_start_audio_stream call_stop_audio_stream : ServiceFunction

unfoldable pub camera_endpoint : CameraFunction → Endpoint
camera_endpoint call_bind_camera_report =
    endpoint bind_camera_report default_record bind_camera_report_rep
camera_endpoint call_change_wifi = endpoint change_wifi change_wifi_req change_wifi_rep
camera_endpoint call_set_hamicam_initial_info =
    endpoint set_hamicam_initial_info set_hamicam_initial_info_req default_record
camera_endpoint call_get_cam_status_by_id =
    endpoint get_cam_status_by_id default_record cam_status_by_id_rep
camera_endpoint call_delete_camera_info = endpoint delete_camera_info default_record default_record
camera_endpoint call_set_timezone = endpoint set_time_zone date_time_info date_time_info
camera_endpoint call_get_timezone = endpoint get_time_zone date_time_info date_time_info
camera_endpoint call_update_camera_name =
    endpoint update_camera_name update_camera_name_req default_record
camera_endpoint call_set_camera_osd = endpoint set_camera_osd set_camera_osd_req default_record
camera_endpoint call_set_flicker = endpoint set_flicker set_flicker_req default_record
camera_endpoint call_set_microphone = endpoint set_microphone set_microphone_req default_record
camera_endpoint call_set_night_mode = endpoint set_night_mode set_night_mode_req default_record
camera_endpoint call_set_auto_night_vision =
    endpoint set_auto_night_vision set_auto_night_vision_req default_record
camera_endpoint call_set_speaker = endpoint set_speak set_speaker_req default_record
camera_endpoint call_set_flip_up_down =
    endpoint set_flip_up_down set_flip_up_down_req default_record
camera_endpoint call_set_led = endpoint set_led set_led_req default_record
camera_endpoint call_set_camera_power =
    endpoint set_camera_power set_camera_power_req default_record
camera_endpoint call_quary_snapshot = endpoint quary_snapshot default_record default_record
camera_endpoint call_reboot = endpoint reboot default_record default_record
camera_endpoint call_set_storage_day =
    endpoint set_cam_storage_day set_storage_day_req default_record
camera_endpoint call_set_event_storage_day =
    endpoint set_cam_event_storage_day set_storage_day_req default_record
camera_endpoint call_format_sd_card = endpoint format_sd_card default_record default_record

unfoldable pub ptz_endpoint : PtzFunction → Endpoint
ptz_endpoint call_set_ptz_control_move =
    endpoint ptz_control_move ptz_control_move_req default_record
ptz_endpoint call_set_ptz_absolute_move = endpoint format_sd_card ptz_move_req default_record
ptz_endpoint call_set_ptz_relative_move = endpoint format_sd_card ptz_move_req default_record
ptz_endpoint call_set_ptz_continuous_move = endpoint format_sd_card ptz_move_req default_record
ptz_endpoint call_goto_ptz_home = endpoint format_sd_card ptz_move_req default_record
ptz_endpoint call_set_ptz_speed = endpoint ptz_control_speed set_ptz_speed_req default_record
ptz_endpoint call_get_ptz_status = endpoint ptz_get_control default_record get_ptz_status_rep
ptz_endpoint call_set_ptz_tour_go = endpoint ptz_control_tour_go ptz_tour_go_req default_record
ptz_endpoint call_set_ptz_go_preset = endpoint ptz_control_go_pst ptz_go_preset_req default_record
ptz_endpoint call_set_ptz_preset_point =
    endpoint ptz_set_preset_point ptz_set_preset_req default_record
ptz_endpoint call_set_ptz_human_tracking =
    endpoint hamicam_human_tracking ptz_set_tracking_req default_record
ptz_endpoint call_set_ptz_pet_tracking =
    endpoint hamicam_pet_tracking ptz_set_tracking_req default_record
ptz_endpoint call_set_ptz_home = endpoint format_sd_card default_record set_ptz_home_rep

unfoldable pub service_endpoint : ServiceFunction → Endpoint
service_endpoint call_get_camera_bind_wifi_info =
    endpoint get_camera_bind_wifi_info default_record get_camera_bind_wifi_info_rep
service_endpoint call_upgrade_camera_ota =
    endpoint upgrade_camera_ota upgrade_camera_ota_req default_record
service_endpoint call_set_camera_ai_setting =
    endpoint set_camera_ai_setting camera_ai_setting camera_ai_setting
service_endpoint call_get_camera_ai_setting =
    endpoint get_camera_ai_setting camera_ai_setting camera_ai_setting
service_endpoint call_start_video_stream =
    endpoint start_video_stream start_video_stream_req start_video_stream_rep
service_endpoint call_stop_video_stream =
    endpoint stop_video_stream stop_video_stream_record stop_video_stream_record
service_endpoint call_start_audio_stream =
    endpoint start_audio_stream start_audio_stream_req start_audio_stream_rep
service_endpoint call_stop_audio_stream =
    endpoint stop_audio_stream stop_video_stream_record stop_video_stream_record

pub data Function : Type 0 where
  camera : CameraFunction → Function
  ptz : PtzFunction → Function
  service : ServiceFunction → Function

unfoldable pub endpoint_of : Function → Endpoint
unfolding camera_endpoint ptz_endpoint service_endpoint
endpoint_of (camera f) = camera_endpoint f
endpoint_of (ptz f) = ptz_endpoint f
endpoint_of (service f) = service_endpoint f
