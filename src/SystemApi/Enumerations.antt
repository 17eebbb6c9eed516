-- ===== src/SystemApi/Enumerations.antt =====
-- The enumerations of implement/zwsystemInterface/zwsystem_ipc_common.h: their names and values.
use Prim.Native.String.{String}
use ipc_with_cht.Prelude.{ℕ, List, [], ◌∷◌}

abbrev pub external_storage_health_values : List (String × ℕ)
external_storage_health_values =
    ("eHealth_Normal", 0)
    ∷ ("eHealth_NewCard", 1)
    ∷ ("eHealth_Damaged", 2)
    ∷ ("eHealth_NoCard", 3)
    ∷ ("eHealth_Formatting", 4)
    ∷ ("eHealth_Other", 5)
    ∷ []

abbrev pub camera_status_values : List (String × ℕ)
camera_status_values =
    ("eStatus_Close", 0)
    ∷ ("eStatus_Normal", 1)
    ∷ ("eStatus_Abnormal", 2)
    ∷ ("eStatus_Sleep", 3)
    ∷ ("eStatus_Unknown", 4)
    ∷ []

abbrev pub flicker_mode_values : List (String × ℕ)
flicker_mode_values = ("eFlicker_50Hz", 0) ∷ ("eFlicker_60Hz", 1) ∷ ("eFlicker_Outdoor", 2) ∷ []

abbrev pub image_quality_mode_values : List (String × ℕ)
image_quality_mode_values =
    ("eImageQuality_Low", 0) ∷ ("eImageQuality_Middle", 1) ∷ ("eImageQuality_High", 2) ∷ []

abbrev pub ptz_status_values : List (String × ℕ)
ptz_status_values =
    ("ePtzStatus_None", 0)
    ∷ ("ePtzStatus_Move", 1)
    ∷ ("ePtzStatus_Tour", 2)
    ∷ ("ePtzStatus_Home", 3)
    ∷ ("ePtzStatus_Stay", 4)
    ∷ []

abbrev pub ptz_tracking_mode_values : List (String × ℕ)
ptz_tracking_mode_values =
    ("ePtzTracking_Off", 0) ∷ ("ePtzTracking_GoToHome", 1) ∷ ("ePtzTracking_Stay", 2) ∷ []

abbrev pub sen_mode_values : List (String × ℕ)
sen_mode_values = ("eSenMode_Low", 0) ∷ ("eSenMode_Middle", 1) ∷ ("eSenMode_High", 2) ∷ []

abbrev pub verify_level_values : List (String × ℕ)
verify_level_values = ("eVerifyLevel_Low", 1) ∷ ("eVerifyLevel_High", 2) ∷ []

abbrev pub fence_direction_values : List (String × ℕ)
fence_direction_values = ("eFenceDir_Out2In", 0) ∷ ("eFenceDir_In2Out", 1) ∷ []

abbrev pub ai_setting_update_mask_bit_values : List (String × ℕ)
ai_setting_update_mask_bit_values =
    ("eAiSettingUpdateMask_Empty", 0)
    ∷ ("eAiSettingUpdateMask_VmdAlert", 1)
    ∷ ("eAiSettingUpdateMask_HumanAlert", 2)
    ∷ ("eAiSettingUpdateMask_PetAlert", 4)
    ∷ ("eAiSettingUpdateMask_AdAlert", 8)
    ∷ ("eAiSettingUpdateMask_FenceAlert", 16)
    ∷ ("eAiSettingUpdateMask_FaceAlert", 32)
    ∷ ("eAiSettingUpdateMask_FallAlert", 64)
    ∷ ("eAiSettingUpdateMask_AdBabyCryAlert", 128)
    ∷ ("eAiSettingUpdateMask_AdSpeechAlert", 256)
    ∷ ("eAiSettingUpdateMask_AdAlarmAlert", 512)
    ∷ ("eAiSettingUpdateMask_AdDogAlert", 1024)
    ∷ ("eAiSettingUpdateMask_AdCatAlert", 2048)
    ∷ ("eAiSettingUpdateMask_VmdSen", 4096)
    ∷ ("eAiSettingUpdateMask_AdSen", 8192)
    ∷ ("eAiSettingUpdateMask_HumanSen", 16384)
    ∷ ("eAiSettingUpdateMask_FaceSen", 32768)
    ∷ ("eAiSettingUpdateMask_FenceSen", 65536)
    ∷ ("eAiSettingUpdateMask_PetSen", 131072)
    ∷ ("eAiSettingUpdateMask_AdBabySen", 262144)
    ∷ ("eAiSettingUpdateMask_AdSpeechSen", 524288)
    ∷ ("eAiSettingUpdateMask_AdAlarmSen", 1048576)
    ∷ ("eAiSettingUpdateMask_AdDogSen", 2097152)
    ∷ ("eAiSettingUpdateMask_AdCatSen", 4194304)
    ∷ ("eAiSettingUpdateMask_FallSen", 8388608)
    ∷ ("eAiSettingUpdateMask_FallTime", 16777216)
    ∷ ("eAiSettingUpdateMask_Features", 33554432)
    ∷ ("eAiSettingUpdateMask_FencePos", 67108864)
    ∷ ("eAiSettingUpdateMask_FenceDir", 134217728)
    ∷ ("eAiSettingUpdateMask_ALL", 4294967295)
    ∷ []

abbrev pub fence_pos_update_mask_bit_values : List (String × ℕ)
fence_pos_update_mask_bit_values =
    ("eFencePosUpdateMask_Empty", 0)
    ∷ ("eFencePosUpdateMask_FencePos_1", 2)
    ∷ ("eFencePosUpdateMask_FencePos_2", 4)
    ∷ ("eFencePosUpdateMask_FencePos_3", 8)
    ∷ ("eFencePosUpdateMask_FencePos_4", 16)
    ∷ ("eFencePosUpdateMask_ALL", 4294967295)
    ∷ []

abbrev pub date_time_type_values : List (String × ℕ)
date_time_type_values = ("DateTimeType_eManual", 0) ∷ ("DateTimeType_eNTP", 1) ∷ []

abbrev pub datetime_update_mask_bit_values : List (String × ℕ)
datetime_update_mask_bit_values =
    ("eDatetimeUpdateMask_SourceType", 2)
    ∷ ("eDatetimeUpdateMask_Timezone", 4)
    ∷ ("eDatetimeUpdateMask_ALL", 4294967295)
    ∷ []

abbrev pub ptz_control_move_type_values : List (String × ℕ)
ptz_control_move_type_values =
    ("ePtzControlMove_Stop", 0)
    ∷ ("ePtzControlMove_Left", 1)
    ∷ ("ePtzControlMove_Right", 2)
    ∷ ("ePtzControlMove_Up", 3)
    ∷ ("ePtzControlMove_Down", 4)
    ∷ ("ePtzControlMove_Pan", 5)
    ∷ ("ePtzControlMove_Home", 6)
    ∷ []

abbrev pub ota_upgrade_mode_values : List (String × ℕ)
ota_upgrade_mode_values = ("eUpgradeMode_Immediately", 0) ∷ ("eUpgradeMode_Later", 1) ∷ []

abbrev pub recognition_type_values : List (String × ℕ)
recognition_type_values =
    ("eRecognitionType_EED", 0)
    ∷ ("eRecognitionType_FR", 1)
    ∷ ("eRecognitionType_HSED_Loud", 2)
    ∷ ("eRecognitionType_HSED_BabyCry", 3)
    ∷ ("eRecognitionType_HSED_Alarm", 4)
    ∷ ("eRecognitionType_HSED_Speech", 5)
    ∷ ("eRecognitionType_HSED_Dog", 6)
    ∷ ("eRecognitionType_HSED_Cat", 7)
    ∷ ("eRecognitionType_FED", 8)
    ∷ ("eRecognitionType_BD", 9)
    ∷ ("eRecognitionType_Unknown", 10)
    ∷ []

abbrev pub recognition_event_class_type_values : List (String × ℕ)
recognition_event_class_type_values =
    ("eRecognitionEventClass_Person", 0)
    ∷ ("eRecognitionEventClass_Pet", 1)
    ∷ ("eRecognitionEventClass_Montion", 2)
    ∷ ("eRecognitionEventClass_Face", 3)
    ∷ ("eRecognitionEventClass_Unknown", 4)
    ∷ []

abbrev pub camera_status_event_type_values : List (String × ℕ)
camera_status_event_type_values =
    ("eStatusEventType_Malfunction", 2)
    ∷ ("eStatuseventType_Normal", 4)
    ∷ ("eStatusEventType_Unknown", 5)
    ∷ []

abbrev pub stream_frame_type_values : List (String × ℕ)
stream_frame_type_values = ("eStreamFrameType_RTP", 0) ∷ ("eStreamFrameType_RAW", 1) ∷ []

abbrev pub video_streaming_type_values : List (String × ℕ)
video_streaming_type_values =
    ("eVideoStreamingType_Live", 0) ∷ ("eVideoStreamingType_History", 1) ∷ []

abbrev pub video_codec_values : List (String × ℕ)
video_codec_values =
    ("eVideoCodec_MJPG", 0)
    ∷ ("eVideoCodec_MPEG4", 1)
    ∷ ("eVideoCodec_H264", 2)
    ∷ ("eVideoCodec_H263", 3)
    ∷ ("eVideoCodec_H265", 4)
    ∷ []

abbrev pub audio_codec_values : List (String × ℕ)
audio_codec_values =
    ("eAudioodec_G711", 11) ∷ ("eAudioCodec_G729", 12) ∷ ("eAudioCodec_AAC", 13) ∷ []
