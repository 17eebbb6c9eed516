-- ===== src/SystemApi/Command.antt =====
-- The commands of implement/zwsystemInterface/zwsystem_ipc_defined.h.
use ipc_with_cht.Prelude.{ℕ, ◌<◌, arith}

-- eZwsystemIpcCmd, in the order of the source.
pub data Cmd : Type 0 where
  bind_camera_report camera_register check_hioss_status get_hamicam_initial_info : Cmd
  set_hamicam_initial_info snapshot record_event recognition status_event : Cmd
  get_cam_status_by_id delete_camera_info set_time_zone get_time_zone update_camera_name : Cmd
  set_camera_osd set_camera_hd set_flicker set_image_quality set_microphone set_night_mode : Cmd
  set_auto_night_vision set_speak set_flip_up_down set_led set_camera_power quary_snapshot : Cmd
  reboot set_cam_storage_day set_cam_event_storage_day format_sd_card ptz_control_move : Cmd
  ptz_control_speed ptz_get_control ptz_control_tour_go ptz_control_go_pst : Cmd
  ptz_set_preset_point hamicam_human_tracking hamicam_pet_tracking : Cmd
  get_camera_bind_wifi_info upgrade_camera_ota set_camera_ai_setting get_camera_ai_setting : Cmd
  start_video_stream stop_video_stream get_video_schedule_stream : Cmd
  stop_video_schedule_stream start_audio_stream stop_audio_stream ptz_absolute_move : Cmd
  ptz_relative_move ptz_continuous_move set_ptz_home goto_ptz_home get_all_media_configure : Cmd
  get_video_source_configure get_video_encoder_configure get_metadata_configure : Cmd
  change_wifi : Cmd

-- The value of a command.
unfoldable pub command_number : Cmd → ℕ
command_number bind_camera_report = 0
command_number camera_register = 1
command_number check_hioss_status = 2
command_number get_hamicam_initial_info = 3
command_number set_hamicam_initial_info = 4
command_number snapshot = 5
command_number record_event = 6
command_number recognition = 7
command_number status_event = 8
command_number get_cam_status_by_id = 9
command_number delete_camera_info = 10
command_number set_time_zone = 11
command_number get_time_zone = 12
command_number update_camera_name = 13
command_number set_camera_osd = 14
command_number set_camera_hd = 15
command_number set_flicker = 16
command_number set_image_quality = 17
command_number set_microphone = 18
command_number set_night_mode = 19
command_number set_auto_night_vision = 20
command_number set_speak = 21
command_number set_flip_up_down = 22
command_number set_led = 23
command_number set_camera_power = 24
command_number quary_snapshot = 25
command_number reboot = 26
command_number set_cam_storage_day = 27
command_number set_cam_event_storage_day = 28
command_number format_sd_card = 29
command_number ptz_control_move = 30
command_number ptz_control_speed = 31
command_number ptz_get_control = 32
command_number ptz_control_tour_go = 33
command_number ptz_control_go_pst = 34
command_number ptz_set_preset_point = 35
command_number hamicam_human_tracking = 36
command_number hamicam_pet_tracking = 37
command_number get_camera_bind_wifi_info = 38
command_number upgrade_camera_ota = 39
command_number set_camera_ai_setting = 40
command_number get_camera_ai_setting = 41
command_number start_video_stream = 42
command_number stop_video_stream = 43
command_number get_video_schedule_stream = 44
command_number stop_video_schedule_stream = 45
command_number start_audio_stream = 46
command_number stop_audio_stream = 47
command_number ptz_absolute_move = 48
command_number ptz_relative_move = 49
command_number ptz_continuous_move = 50
command_number set_ptz_home = 51
command_number goto_ptz_home = 52
command_number get_all_media_configure = 53
command_number get_video_source_configure = 54
command_number get_video_encoder_configure = 55
command_number get_metadata_configure = 56
command_number change_wifi = 57

-- A command fits the 16 bits that the header has for it.
pub command_number-lt : (c : Cmd) → command_number c < 58
unfolding command_number
command_number-lt bind_camera_report = omega arith
command_number-lt camera_register = omega arith
command_number-lt check_hioss_status = omega arith
command_number-lt get_hamicam_initial_info = omega arith
command_number-lt set_hamicam_initial_info = omega arith
command_number-lt snapshot = omega arith
command_number-lt record_event = omega arith
command_number-lt recognition = omega arith
command_number-lt status_event = omega arith
command_number-lt get_cam_status_by_id = omega arith
command_number-lt delete_camera_info = omega arith
command_number-lt set_time_zone = omega arith
command_number-lt get_time_zone = omega arith
command_number-lt update_camera_name = omega arith
command_number-lt set_camera_osd = omega arith
command_number-lt set_camera_hd = omega arith
command_number-lt set_flicker = omega arith
command_number-lt set_image_quality = omega arith
command_number-lt set_microphone = omega arith
command_number-lt set_night_mode = omega arith
command_number-lt set_auto_night_vision = omega arith
command_number-lt set_speak = omega arith
command_number-lt set_flip_up_down = omega arith
command_number-lt set_led = omega arith
command_number-lt set_camera_power = omega arith
command_number-lt quary_snapshot = omega arith
command_number-lt reboot = omega arith
command_number-lt set_cam_storage_day = omega arith
command_number-lt set_cam_event_storage_day = omega arith
command_number-lt format_sd_card = omega arith
command_number-lt ptz_control_move = omega arith
command_number-lt ptz_control_speed = omega arith
command_number-lt ptz_get_control = omega arith
command_number-lt ptz_control_tour_go = omega arith
command_number-lt ptz_control_go_pst = omega arith
command_number-lt ptz_set_preset_point = omega arith
command_number-lt hamicam_human_tracking = omega arith
command_number-lt hamicam_pet_tracking = omega arith
command_number-lt get_camera_bind_wifi_info = omega arith
command_number-lt upgrade_camera_ota = omega arith
command_number-lt set_camera_ai_setting = omega arith
command_number-lt get_camera_ai_setting = omega arith
command_number-lt start_video_stream = omega arith
command_number-lt stop_video_stream = omega arith
command_number-lt get_video_schedule_stream = omega arith
command_number-lt stop_video_schedule_stream = omega arith
command_number-lt start_audio_stream = omega arith
command_number-lt stop_audio_stream = omega arith
command_number-lt ptz_absolute_move = omega arith
command_number-lt ptz_relative_move = omega arith
command_number-lt ptz_continuous_move = omega arith
command_number-lt set_ptz_home = omega arith
command_number-lt goto_ptz_home = omega arith
command_number-lt get_all_media_configure = omega arith
command_number-lt get_video_source_configure = omega arith
command_number-lt get_video_encoder_configure = omega arith
command_number-lt get_metadata_configure = omega arith
command_number-lt change_wifi = omega arith
