-- ===== src/SystemApi/CameraRecords.antt =====
-- The records of implement/zwsystemInterface/zwsystem_ipc_common.h for the camera's state and
-- settings, field by field, as far as a client function sends or receives them.
use ipc_with_cht.Prelude.{List, [], ◌∷◌}
use ipc_with_cht.SystemApi.Layout.{
  Field, field, array, struct, bool, char, uint8, int, uint32, float, enum, text,
}
use ipc_with_cht.SystemApi.Enumerations.{
  camera_status_values, date_time_type_values, external_storage_health_values,
  fence_direction_values, flicker_mode_values, image_quality_mode_values, ota_upgrade_mode_values,
  ptz_status_values, ptz_tracking_mode_values, sen_mode_values, verify_level_values,
}

abbrev pub default_record : List Field
default_record = field "code" int ∷ field "description" text ∷ []

abbrev pub bind_camera_report_rep : List Field
bind_camera_report_rep =
    field "code" int
    ∷ field "description" text
    ∷ field "camId" text
    ∷ field "userId" text
    ∷ field "name" text
    ∷ field "netNo" text
    ∷ field "firmwareVer" text
    ∷ field "externalStorageHealth" (enum external_storage_health_values)
    ∷ field "wifiSsid" text
    ∷ field "wifiDbm" int
    ∷ field "status" (enum camera_status_values)
    ∷ field "vsDomain" text
    ∷ field "vsToken" text
    ∷ field "macAddress" text
    ∷ field "activeStatus" bool
    ∷ field "deviceStatus" bool
    ∷ field "cameraType" text
    ∷ field "model" text
    ∷ field "isCheckHioss" bool
    ∷ field "brand" text
    ∷ field "chtBarcode" text
    ∷ []

abbrev pub hamicam_info : List Field
hamicam_info =
    field "camSid" int
    ∷ field "camId" text
    ∷ field "chtBarcode" text
    ∷ field "tenantId" text
    ∷ field "netNo" text
    ∷ field "userId" text
    ∷ []

abbrev pub hami_setting : List Field
unfolding struct
hami_setting =
    field "nightMode" bool
    ∷ field "autoNightVision" bool
    ∷ field "statusIndicatorLight" bool
    ∷ field "isFlipUpDown" bool
    ∷ field "isHd" bool
    ∷ field "flicker" (enum flicker_mode_values)
    ∷ field "imageQuality" (enum image_quality_mode_values)
    ∷ field "isMicrophone" bool
    ∷ field "microphoneSensitivity" uint32
    ∷ field "isSpeaker" bool
    ∷ field "speakerVolume" uint32
    ∷ field "storageDay" uint32
    ∷ field "scheduleOn" bool
    ∷ field "scheduleSun" (array char 10)
    ∷ field "scheduleMon" (array char 10)
    ∷ field "scheduleTue" (array char 10)
    ∷ field "scheduleWed" (array char 10)
    ∷ field "scheduleThu" (array char 10)
    ∷ field "scheduleFri" (array char 10)
    ∷ field "scheduleSat" (array char 10)
    ∷ field "eventStorageDay" uint32
    ∷ field "powerOn" bool
    ∷ field "alertOn" bool
    ∷ field "vmd" bool
    ∷ field "ad" bool
    ∷ field "power" uint32
    ∷ field "ptzStatus" (enum ptz_status_values)
    ∷ field "ptzPetStatus" (enum ptz_status_values)
    ∷ field "ptzSpeed" float
    ∷ field "ptzTourStayTime" uint32
    ∷ field "humanTracking" (enum ptz_tracking_mode_values)
    ∷ field "petTracking" (enum ptz_tracking_mode_values)
    ∷ []

abbrev pub position_record : List Field
position_record = field "x" float ∷ field "y" float ∷ []

abbrev pub identification_feature : List Field
unfolding struct
identification_feature =
    field "id" uint32
    ∷ field "name" text
    ∷ field "verifyLevel" (enum verify_level_values)
    ∷ field "faceFeatures" (array uint8 2048)
    ∷ field "createTime" text
    ∷ field "updateTime" text
    ∷ []

abbrev pub hami_ai_setting : List Field
unfolding struct
hami_ai_setting =
    field "updateBit" uint32
    ∷ field "fencePosUpdateBit" uint32
    ∷ field "vmdAlert" bool
    ∷ field "humanAlert" bool
    ∷ field "petAlert" bool
    ∷ field "adAlert" bool
    ∷ field "fenceAlert" bool
    ∷ field "faceAlert" bool
    ∷ field "fallAlert" bool
    ∷ field "adBabyCryAlert" bool
    ∷ field "adSpeechAlert" bool
    ∷ field "adAlarmAlert" bool
    ∷ field "adDogAlert" bool
    ∷ field "adCatAlert" bool
    ∷ field "vmdSen" (enum sen_mode_values)
    ∷ field "adSen" (enum sen_mode_values)
    ∷ field "humanSen" (enum sen_mode_values)
    ∷ field "faceSen" (enum sen_mode_values)
    ∷ field "fenceSen" (enum sen_mode_values)
    ∷ field "petSen" (enum sen_mode_values)
    ∷ field "adBabyCrySen" (enum sen_mode_values)
    ∷ field "adSpeechSen" (enum sen_mode_values)
    ∷ field "adAlarmSen" (enum sen_mode_values)
    ∷ field "adDogSen" (enum sen_mode_values)
    ∷ field "adCatSen" (enum sen_mode_values)
    ∷ field "fallSen" (enum sen_mode_values)
    ∷ field "fallTime" int
    ∷ field "featuresObjSize" uint32
    ∷ field "features" (array (struct identification_feature) 20)
    ∷ field "fencePosSize" uint32
    ∷ field "fencePos" (array (struct position_record) 4)
    ∷ field "fenceDir" (enum fence_direction_values)
    ∷ []

abbrev pub hami_system_setting : List Field
hami_system_setting =
    field "otaDomainName" text
    ∷ field "otaQueryInterval" int
    ∷ field "ntpServer" text
    ∷ field "bucketName" text
    ∷ []

abbrev pub set_hamicam_initial_info_req : List Field
unfolding struct
set_hamicam_initial_info_req =
    field "code" int
    ∷ field "description" text
    ∷ field "hamiCamInfo" (struct hamicam_info)
    ∷ field "hamiSetting" (struct hami_setting)
    ∷ field "hamiAiSetting" (struct hami_ai_setting)
    ∷ field "hamiSystemSetting" (struct hami_system_setting)
    ∷ []

abbrev pub cam_status_by_id_rep : List Field
cam_status_by_id_rep =
    field "code" int
    ∷ field "description" text
    ∷ field "isMicrophone" bool
    ∷ field "speakVolume" uint32
    ∷ field "imageQuality" (enum image_quality_mode_values)
    ∷ field "activeStatus" bool
    ∷ field "name" text
    ∷ field "status" (enum camera_status_values)
    ∷ field "externalStorageHealth" (enum external_storage_health_values)
    ∷ field "externalStorageCapacity" text
    ∷ field "externalStorageAvailable" text
    ∷ field "wifiSsid" text
    ∷ field "wifiDbm" int
    ∷ []

abbrev pub date_time_info : List Field
date_time_info =
    field "code" int
    ∷ field "description" text
    ∷ field "updateBit" uint32
    ∷ field "daylightSavings" bool
    ∷ field "TZStr" text
    ∷ field "offset" uint32
    ∷ field "type" (enum date_time_type_values)
    ∷ field "year" int
    ∷ field "month" int
    ∷ field "day" int
    ∷ field "hours" int
    ∷ field "minutes" int
    ∷ field "seconds" int
    ∷ []

abbrev pub update_camera_name_req : List Field
update_camera_name_req = field "name" text ∷ []

abbrev pub set_camera_osd_req : List Field
set_camera_osd_req = field "osdRule" text ∷ []

abbrev pub set_flicker_req : List Field
set_flicker_req = field "flicker" (enum flicker_mode_values) ∷ []

abbrev pub set_microphone_req : List Field
set_microphone_req = field "microphoneSensitivity" uint32 ∷ []

abbrev pub set_night_mode_req : List Field
set_night_mode_req = field "nightMode" bool ∷ []

abbrev pub set_auto_night_vision_req : List Field
set_auto_night_vision_req = field "autoNightVision" bool ∷ []

abbrev pub set_speaker_req : List Field
set_speaker_req = field "speakerVolume" uint32 ∷ []

abbrev pub set_flip_up_down_req : List Field
set_flip_up_down_req = field "isFlipUpDown" bool ∷ []

abbrev pub set_led_req : List Field
set_led_req = field "statusIndicatorLight" bool ∷ []

abbrev pub set_camera_power_req : List Field
set_camera_power_req = field "cameraPower" bool ∷ []

abbrev pub set_storage_day_req : List Field
set_storage_day_req = field "storageDay" uint32 ∷ []

abbrev pub get_camera_bind_wifi_info_rep : List Field
get_camera_bind_wifi_info_rep =
    field "code" int ∷ field "description" text ∷ field "wifiSsid" text ∷ field "password" text ∷ []

abbrev pub upgrade_camera_ota_req : List Field
upgrade_camera_ota_req =
    field "upgradeMode" (enum ota_upgrade_mode_values) ∷ field "filePath" text ∷ []

abbrev pub camera_ai_setting : List Field
unfolding struct
camera_ai_setting =
    field "code" int ∷ field "description" text ∷ field "aiSetting" (struct hami_ai_setting) ∷ []

abbrev pub change_wifi_rep : List Field
change_wifi_rep =
    field "code" int ∷ field "description" text ∷ field "wifiSsid" text ∷ field "wifiDbm" int ∷ []

abbrev pub change_wifi_req : List Field
change_wifi_req = field "wifiSsid" text ∷ field "password" text ∷ []
