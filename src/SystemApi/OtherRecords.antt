-- ===== src/SystemApi/OtherRecords.antt =====
-- The records of implement/zwsystemInterface/zwsystem_ipc_common.h for the functions that
-- zwsystem_ipc_client.h declares without a definition in the repository.
use ipc_with_cht.Prelude.{List, [], ◌∷◌}
use ipc_with_cht.SystemApi.Layout.{Field, field, struct, bool, int, enum, text}
use ipc_with_cht.SystemApi.Enumerations.{image_quality_mode_values}
use ipc_with_cht.SystemApi.CameraRecords.{
  hami_ai_setting, hami_setting, hami_system_setting, hamicam_info,
}

abbrev pub camer_register_req : List Field
camer_register_req = field "camId" text ∷ []

abbrev pub camer_register_rep : List Field
camer_register_rep = field "code" int ∷ field "description" text ∷ field "publicId" text ∷ []

abbrev pub check_hioss_status_req : List Field
check_hioss_status_req = field "camId" text ∷ field "publicIp" text ∷ field "chtBarcode" text ∷ []

abbrev pub check_hioss_status_rep : List Field
check_hioss_status_rep =
    field "code" int
    ∷ field "description" text
    ∷ field "status" bool
    ∷ field "obj_description" text
    ∷ []

abbrev pub get_hamicam_initial_info_req : List Field
get_hamicam_initial_info_req = field "camId" text ∷ []

abbrev pub get_hamicam_initial_info_rep : List Field
unfolding struct
get_hamicam_initial_info_rep =
    field "code" int
    ∷ field "description" text
    ∷ field "hamiCamInfo" (struct hamicam_info)
    ∷ field "hamiSetting" (struct hami_setting)
    ∷ field "hamiAiSetting" (struct hami_ai_setting)
    ∷ field "hamiSystemSetting" (struct hami_system_setting)
    ∷ []

abbrev pub set_camera_hd_req : List Field
set_camera_hd_req = field "camId" text ∷ field "requestId" text ∷ field "isHd" bool ∷ []

abbrev pub set_camera_hd_rep : List Field
set_camera_hd_rep =
    field "code" int
    ∷ field "description" text
    ∷ field "result" int
    ∷ field "requestId" text
    ∷ field "isHd" bool
    ∷ []

abbrev pub set_image_quality_req : List Field
set_image_quality_req =
    field "camId" text
    ∷ field "requestId" text
    ∷ field "imageQuality" (enum image_quality_mode_values)
    ∷ []

abbrev pub set_image_quality_rep : List Field
set_image_quality_rep =
    field "code" int
    ∷ field "description" text
    ∷ field "result" int
    ∷ field "requestId" text
    ∷ field "imageQuality" (enum image_quality_mode_values)
    ∷ []
