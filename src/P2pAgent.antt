-- ===== src/P2pAgent.antt =====
-- implement/cht_p2pagent/cht_ipc_common.h and cht_ipc_client.h: the messages of the camera agent's
-- client, an earlier form of the system client with its own commands and records.
pub mod Client
pub mod Service
pub mod Exchange
use ipc_with_cht.Prelude.{ℕ, ◌+◌, ◌*◌, ◌^◌, ◌<◌, ◌≡◌, refl, some, List, [], ◌∷◌, arith}
use ipc_with_cht.Prelude.Bytes.{Bytes}
use ipc_with_cht.Prelude.Memory.{store_num}
use ipc_with_cht.SystemApi.Layout.{
  Field, field, array, struct, text, int, uint16, uint32, pointer, offset_of, offset_from,
}

-- eChtIpcCmd, in the order of the source.
pub data ChtCmd : Type 0 where
  cht_get_cam_status_by_id cht_delete_camera_info cht_set_time_zone cht_get_time_zone : ChtCmd
  cht_update_camera_name cht_set_camera_osd cht_set_camera_hd cht_set_flicker : ChtCmd
  cht_set_image_quality cht_set_microphone cht_set_night_mode cht_set_auto_night_vision : ChtCmd
  cht_set_speak cht_set_flip_up_down cht_set_led cht_set_camera_power : ChtCmd
  cht_get_snapshot_hamicam_device cht_restart_hamicam_device cht_set_cam_storage_day : ChtCmd
  cht_set_cam_event_storage_day cht_hamicam_format_sd_card cht_hamicam_ptz_control_move : ChtCmd
  cht_hamicam_ptz_control_config_speed cht_hamicam_get_ptz_control : ChtCmd
  cht_hamicam_ptz_control_tour_go cht_hamicam_ptz_control_go_pst : ChtCmd
  cht_hamicam_ptz_control_config_pst cht_hamicam_human_tracking cht_hamicam_pet_tracking : ChtCmd
  cht_get_hamicam_bind_list cht_upgrade_hamicam_ota cht_update_camera_ai_setting : ChtCmd
  cht_get_camera_ai_setting cht_get_video_live_stream cht_stop_video_live_stream : ChtCmd
  cht_get_video_history_stream cht_stop_video_history_stream : ChtCmd
  cht_get_video_schedule_stream cht_stop_video_schedule_stream cht_send_audio_stream : ChtCmd
  cht_stop_audio_stream : ChtCmd

-- The value of a command.
unfoldable pub cht_command_number : ChtCmd → ℕ
cht_command_number cht_get_cam_status_by_id = 0
cht_command_number cht_delete_camera_info = 1
cht_command_number cht_set_time_zone = 2
cht_command_number cht_get_time_zone = 3
cht_command_number cht_update_camera_name = 4
cht_command_number cht_set_camera_osd = 5
cht_command_number cht_set_camera_hd = 6
cht_command_number cht_set_flicker = 7
cht_command_number cht_set_image_quality = 8
cht_command_number cht_set_microphone = 9
cht_command_number cht_set_night_mode = 10
cht_command_number cht_set_auto_night_vision = 11
cht_command_number cht_set_speak = 12
cht_command_number cht_set_flip_up_down = 13
cht_command_number cht_set_led = 14
cht_command_number cht_set_camera_power = 15
cht_command_number cht_get_snapshot_hamicam_device = 16
cht_command_number cht_restart_hamicam_device = 17
cht_command_number cht_set_cam_storage_day = 18
cht_command_number cht_set_cam_event_storage_day = 19
cht_command_number cht_hamicam_format_sd_card = 20
cht_command_number cht_hamicam_ptz_control_move = 21
cht_command_number cht_hamicam_ptz_control_config_speed = 22
cht_command_number cht_hamicam_get_ptz_control = 23
cht_command_number cht_hamicam_ptz_control_tour_go = 24
cht_command_number cht_hamicam_ptz_control_go_pst = 25
cht_command_number cht_hamicam_ptz_control_config_pst = 26
cht_command_number cht_hamicam_human_tracking = 27
cht_command_number cht_hamicam_pet_tracking = 28
cht_command_number cht_get_hamicam_bind_list = 29
cht_command_number cht_upgrade_hamicam_ota = 30
cht_command_number cht_update_camera_ai_setting = 31
cht_command_number cht_get_camera_ai_setting = 32
cht_command_number cht_get_video_live_stream = 33
cht_command_number cht_stop_video_live_stream = 34
cht_command_number cht_get_video_history_stream = 35
cht_command_number cht_stop_video_history_stream = 36
cht_command_number cht_get_video_schedule_stream = 37
cht_command_number cht_stop_video_schedule_stream = 38
cht_command_number cht_send_audio_stream = 39
cht_command_number cht_stop_audio_stream = 40

-- MAKEFOURCC('C', 'H', 'T', '1').
abbrev pub cht_fourcc : ℕ
cht_fourcc = b'C' + b'H' * 2 ^ 8 + b'T' * 2 ^ 16 + b'1' * 2 ^ 24

abbrev pub cht_hdr_record : List Field
cht_hdr_record =
    field "u32FourCC" uint32
    ∷ field "u32HdrSize" uint32
    ∷ field "u32PayloadSize" uint32
    ∷ field "u16Headers" (array uint16 32)
    ∷ []

abbrev pub cht_msg_record : List Field
unfolding struct
cht_msg_record = field "stHdr" (struct cht_hdr_record) ∷ field "pu8Payload" pointer ∷ []

abbrev pub cht_cam_status_req : List Field
cht_cam_status_req =
    field "tenantId" text
    ∷ field "netNo" text
    ∷ field "camSid" int
    ∷ field "camId" text
    ∷ field "userId" text
    ∷ []

abbrev pub cht_cam_status_rep : List Field
cht_cam_status_rep =
    field "result" int
    ∷ field "tenantId" text
    ∷ field "netNo" text
    ∷ field "camSid" int
    ∷ field "camId" text
    ∷ field "firmwareVer" text
    ∷ field "latestVersion" text
    ∷ field "isMicrophone" int
    ∷ field "speakVolume" int
    ∷ field "imageQuality" int
    ∷ field "activeStatus" int
    ∷ field "description" text
    ∷ field "name" text
    ∷ field "status" text
    ∷ field "externalStorageHealth" text
    ∷ field "externalStorageCapacity" text
    ∷ field "externalStorageAvailable" text
    ∷ field "wifiSsid" text
    ∷ field "wifiDbm" int
    ∷ []

-- `cht_ipc_msg_init`, written over what the memory holds.
unfoldable pub cht_msg_init : ℕ → ℕ → Bytes → Bytes
cht_msg_init id cmd m = store_num 80 8 0 (
    store_num 8 4 0
      (store_num 4 4 2 (store_num 14 2 cmd (store_num 12 2 id (store_num 0 4 cht_fourcc m)))))

-- The offsets that the message is written with are those of the records.
cht_msg-layout :
    (offset_of "u32HdrSize" cht_hdr_record ≡ some (4, uint32))
    × (offset_of "u32PayloadSize" cht_hdr_record ≡ some (8, uint32))
    × (offset_of "u16Headers" cht_hdr_record ≡ some (12, array uint16 32))
    × (offset_of "pu8Payload" cht_msg_record ≡ some (80, pointer))
unfolding struct offset_from
cht_msg-layout = (refl, refl, refl, refl)

-- The records of the one function of the client have these sizes, which its header carries.
cht_cam_status-sizes :
    ((struct cht_cam_status_req).size ≡ 1028) × ((struct cht_cam_status_rep).size ≡ 3100)
unfolding struct
cht_cam_status-sizes = (refl, refl)

-- A command fits the 16 bits that the header has for it.
cht_command_number-lt : (c : ChtCmd) → cht_command_number c < 2 ^ 16
unfolding cht_command_number
cht_command_number-lt cht_get_cam_status_by_id = omega arith
cht_command_number-lt cht_delete_camera_info = omega arith
cht_command_number-lt cht_set_time_zone = omega arith
cht_command_number-lt cht_get_time_zone = omega arith
cht_command_number-lt cht_update_camera_name = omega arith
cht_command_number-lt cht_set_camera_osd = omega arith
cht_command_number-lt cht_set_camera_hd = omega arith
cht_command_number-lt cht_set_flicker = omega arith
cht_command_number-lt cht_set_image_quality = omega arith
cht_command_number-lt cht_set_microphone = omega arith
cht_command_number-lt cht_set_night_mode = omega arith
cht_command_number-lt cht_set_auto_night_vision = omega arith
cht_command_number-lt cht_set_speak = omega arith
cht_command_number-lt cht_set_flip_up_down = omega arith
cht_command_number-lt cht_set_led = omega arith
cht_command_number-lt cht_set_camera_power = omega arith
cht_command_number-lt cht_get_snapshot_hamicam_device = omega arith
cht_command_number-lt cht_restart_hamicam_device = omega arith
cht_command_number-lt cht_set_cam_storage_day = omega arith
cht_command_number-lt cht_set_cam_event_storage_day = omega arith
cht_command_number-lt cht_hamicam_format_sd_card = omega arith
cht_command_number-lt cht_hamicam_ptz_control_move = omega arith
cht_command_number-lt cht_hamicam_ptz_control_config_speed = omega arith
cht_command_number-lt cht_hamicam_get_ptz_control = omega arith
cht_command_number-lt cht_hamicam_ptz_control_tour_go = omega arith
cht_command_number-lt cht_hamicam_ptz_control_go_pst = omega arith
cht_command_number-lt cht_hamicam_ptz_control_config_pst = omega arith
cht_command_number-lt cht_hamicam_human_tracking = omega arith
cht_command_number-lt cht_hamicam_pet_tracking = omega arith
cht_command_number-lt cht_get_hamicam_bind_list = omega arith
cht_command_number-lt cht_upgrade_hamicam_ota = omega arith
cht_command_number-lt cht_update_camera_ai_setting = omega arith
cht_command_number-lt cht_get_camera_ai_setting = omega arith
cht_command_number-lt cht_get_video_live_stream = omega arith
cht_command_number-lt cht_stop_video_live_stream = omega arith
cht_command_number-lt cht_get_video_history_stream = omega arith
cht_command_number-lt cht_stop_video_history_stream = omega arith
cht_command_number-lt cht_get_video_schedule_stream = omega arith
cht_command_number-lt cht_stop_video_schedule_stream = omega arith
cht_command_number-lt cht_send_audio_stream = omega arith
cht_command_number-lt cht_stop_audio_stream = omega arith
