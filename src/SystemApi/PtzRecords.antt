-- ===== src/SystemApi/PtzRecords.antt =====
-- The records of implement/zwsystemInterface/zwsystem_ipc_common.h for the motors.
use ipc_with_cht.Prelude.{List, [], ◌∷◌}
use ipc_with_cht.SystemApi.Layout.{Field, field, bool, int, uint32, float, enum, text}
use ipc_with_cht.SystemApi.Enumerations.{
  ptz_control_move_type_values, ptz_status_values, ptz_tracking_mode_values,
}

abbrev pub ptz_control_move_req : List Field
ptz_control_move_req = field "moveCmd" (enum ptz_control_move_type_values) ∷ []

abbrev pub ptz_move_req : List Field
ptz_move_req =
    field "cmd" text
    ∷ field "move_x" float
    ∷ field "move_y" float
    ∷ field "speed_x" float
    ∷ field "speed_y" float
    ∷ field "timeout" uint32
    ∷ field "pan" bool
    ∷ field "home" bool
    ∷ []

abbrev pub set_ptz_speed_req : List Field
set_ptz_speed_req = field "ptzSpeed" float ∷ []

abbrev pub get_ptz_status_rep : List Field
get_ptz_status_rep =
    field "code" int
    ∷ field "description" text
    ∷ field "ptzTourStayTime" uint32
    ∷ field "ptzSpeed" float
    ∷ field "humanTracking" (enum ptz_tracking_mode_values)
    ∷ field "petTracking" (enum ptz_tracking_mode_values)
    ∷ field "ptzStatus" (enum ptz_status_values)
    ∷ field "ptzPetStatus" (enum ptz_status_values)
    ∷ []

abbrev pub ptz_tour_go_req : List Field
ptz_tour_go_req = field "indexSequence" text ∷ []

abbrev pub ptz_go_preset_req : List Field
ptz_go_preset_req = field "index" uint32 ∷ []

abbrev pub ptz_set_preset_req : List Field
ptz_set_preset_req = field "index" uint32 ∷ field "remove" bool ∷ field "presetName" text ∷ []

abbrev pub ptz_set_tracking_req : List Field
ptz_set_tracking_req = field "val" (enum ptz_tracking_mode_values) ∷ []

abbrev pub set_ptz_home_rep : List Field
set_ptz_home_rep = field "code" int ∷ field "description" text ∷ []
