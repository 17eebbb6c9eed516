-- ===== src/SystemApi/Replies.antt =====
-- The layout of what the client functions send and of what the service answers with.
use ipc_with_cht.Prelude.{List, ◌≡◌, ◌<◌, ◌^◌, refl, true, some, ltb, ltb→lt}
use ipc_with_cht.SystemApi.Layout.{Field, int, text, struct, offset_of, offset_from}
use ipc_with_cht.SystemApi.Functions.{
  Endpoint, Function, CameraFunction, PtzFunction, ServiceFunction, camera, ptz, service,
  endpoint_of, camera_endpoint, ptz_endpoint, service_endpoint, call_bind_camera_report,
  call_change_wifi, call_set_hamicam_initial_info, call_get_cam_status_by_id,
  call_delete_camera_info, call_set_timezone, call_get_timezone, call_update_camera_name,
  call_set_camera_osd, call_set_flicker, call_set_microphone, call_set_night_mode,
  call_set_auto_night_vision, call_set_speaker, call_set_flip_up_down, call_set_led,
  call_set_camera_power, call_quary_snapshot, call_reboot, call_set_storage_day,
  call_set_event_storage_day, call_format_sd_card, call_set_ptz_control_move,
  call_set_ptz_absolute_move, call_set_ptz_relative_move, call_set_ptz_continuous_move,
  call_goto_ptz_home, call_set_ptz_speed, call_get_ptz_status, call_set_ptz_tour_go,
  call_set_ptz_go_preset, call_set_ptz_preset_point, call_set_ptz_human_tracking,
  call_set_ptz_pet_tracking, call_set_ptz_home, call_get_camera_bind_wifi_info,
  call_upgrade_camera_ota, call_set_camera_ai_setting, call_get_camera_ai_setting,
  call_start_video_stream, call_stop_video_stream, call_start_audio_stream, call_stop_audio_stream,
}

-- The reply starts with a result code and its description, and the sizes of both records are
-- numbers of 32 bits.
pub record IsExchange (request reply : List Field) : Type 0 where
  pub code_first : offset_of "code" reply ≡ some (0, int)
  pub description_next : offset_of "description" reply ≡ some (4, text)
  pub reply_fits : (struct reply).size < 2 ^ 32
  pub request_fits : (struct request).size < 2 ^ 32

pub is_exchange :
    {request reply : List Field}
    → offset_of "code" reply ≡ some (0, int)
    → offset_of "description" reply ≡ some (4, text)
    → ltb (struct reply).size (2 ^ 32) ≡ true
    → ltb (struct request).size (2 ^ 32) ≡ true
    → IsExchange request reply
is_exchange c d p q = record {
  code_first = c;
  description_next = d;
  reply_fits = ltb→lt _ _ p;
  request_fits = ltb→lt _ _ q;
}

abbrev pub IsWellFormed : Endpoint → Type 0
IsWellFormed e = IsExchange e.request e.reply

camera-IsWellFormed : (f : CameraFunction) → IsWellFormed (camera_endpoint f)
unfolding camera_endpoint struct offset_from
camera-IsWellFormed call_bind_camera_report = is_exchange refl refl refl refl
camera-IsWellFormed call_change_wifi = is_exchange refl refl refl refl
camera-IsWellFormed call_set_hamicam_initial_info = is_exchange refl refl refl refl
camera-IsWellFormed call_get_cam_status_by_id = is_exchange refl refl refl refl
camera-IsWellFormed call_delete_camera_info = is_exchange refl refl refl refl
camera-IsWellFormed call_set_timezone = is_exchange refl refl refl refl
camera-IsWellFormed call_get_timezone = is_exchange refl refl refl refl
camera-IsWellFormed call_update_camera_name = is_exchange refl refl refl refl
camera-IsWellFormed call_set_camera_osd = is_exchange refl refl refl refl
camera-IsWellFormed call_set_flicker = is_exchange refl refl refl refl
camera-IsWellFormed call_set_microphone = is_exchange refl refl refl refl
camera-IsWellFormed call_set_night_mode = is_exchange refl refl refl refl
camera-IsWellFormed call_set_auto_night_vision = is_exchange refl refl refl refl
camera-IsWellFormed call_set_speaker = is_exchange refl refl refl refl
camera-IsWellFormed call_set_flip_up_down = is_exchange refl refl refl refl
camera-IsWellFormed call_set_led = is_exchange refl refl refl refl
camera-IsWellFormed call_set_camera_power = is_exchange refl refl refl refl
camera-IsWellFormed call_quary_snapshot = is_exchange refl refl refl refl
camera-IsWellFormed call_reboot = is_exchange refl refl refl refl
camera-IsWellFormed call_set_storage_day = is_exchange refl refl refl refl
camera-IsWellFormed call_set_event_storage_day = is_exchange refl refl refl refl
camera-IsWellFormed call_format_sd_card = is_exchange refl refl refl refl

ptz-IsWellFormed : (f : PtzFunction) → IsWellFormed (ptz_endpoint f)
unfolding ptz_endpoint struct offset_from
ptz-IsWellFormed call_set_ptz_control_move = is_exchange refl refl refl refl
ptz-IsWellFormed call_set_ptz_absolute_move = is_exchange refl refl refl refl
ptz-IsWellFormed call_set_ptz_relative_move = is_exchange refl refl refl refl
ptz-IsWellFormed call_set_ptz_continuous_move = is_exchange refl refl refl refl
ptz-IsWellFormed call_goto_ptz_home = is_exchange refl refl refl refl
ptz-IsWellFormed call_set_ptz_speed = is_exchange refl refl refl refl
ptz-IsWellFormed call_get_ptz_status = is_exchange refl refl refl refl
ptz-IsWellFormed call_set_ptz_tour_go = is_exchange refl refl refl refl
ptz-IsWellFormed call_set_ptz_go_preset = is_exchange refl refl refl refl
ptz-IsWellFormed call_set_ptz_preset_point = is_exchange refl refl refl refl
ptz-IsWellFormed call_set_ptz_human_tracking = is_exchange refl refl refl refl
ptz-IsWellFormed call_set_ptz_pet_tracking = is_exchange refl refl refl refl
ptz-IsWellFormed call_set_ptz_home = is_exchange refl refl refl refl

service-IsWellFormed : (f : ServiceFunction) → IsWellFormed (service_endpoint f)
unfolding service_endpoint struct offset_from
service-IsWellFormed call_get_camera_bind_wifi_info = is_exchange refl refl refl refl
service-IsWellFormed call_upgrade_camera_ota = is_exchange refl refl refl refl
service-IsWellFormed call_set_camera_ai_setting = is_exchange refl refl refl refl
service-IsWellFormed call_get_camera_ai_setting = is_exchange refl refl refl refl
service-IsWellFormed call_start_video_stream = is_exchange refl refl refl refl
service-IsWellFormed call_stop_video_stream = is_exchange refl refl refl refl
service-IsWellFormed call_start_audio_stream = is_exchange refl refl refl refl
service-IsWellFormed call_stop_audio_stream = is_exchange refl refl refl refl

-- Every client function waits for a reply that starts with a result code at offset 0 and a
-- description of 256 bytes at offset 4, and the sizes of its request and of its reply are below
-- 2^32, so that the 32-bit payload size of the header holds them.
pub endpoint_of-IsWellFormed : (f : Function) → IsWellFormed (endpoint_of f)
unfolding endpoint_of
endpoint_of-IsWellFormed (camera f) = camera-IsWellFormed f
endpoint_of-IsWellFormed (ptz f) = ptz-IsWellFormed f
endpoint_of-IsWellFormed (service f) = service-IsWellFormed f
