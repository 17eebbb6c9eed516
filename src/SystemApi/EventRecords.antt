-- ===== src/SystemApi/EventRecords.antt =====
-- The records of implement/zwsystemInterface/zwsystem_ipc_common.h for recordings, recognitions
-- and the camera's status: as requests, and as events that are published.
use ipc_with_cht.Prelude.{List, [], ◌∷◌}
use ipc_with_cht.SystemApi.Layout.{Field, field, int, enum, text}
use ipc_with_cht.SystemApi.Enumerations.{
  camera_status_event_type_values, camera_status_values, external_storage_health_values,
  recognition_event_class_type_values, recognition_type_values,
}

abbrev pub snapshot_event_sub : List Field
snapshot_event_sub = field "eventId" text ∷ field "snapshotTime" text ∷ field "filePath" text ∷ []

abbrev pub record_event_req : List Field
record_event_req =
    field "camId" text
    ∷ field "eventId" text
    ∷ field "fromTime" text
    ∷ field "toTime" text
    ∷ field "filePath" text
    ∷ field "thumbnailfilePath" text
    ∷ []

abbrev pub record_event_rep : List Field
record_event_rep = field "code" int ∷ field "description" text ∷ field "result" int ∷ []

abbrev pub record_event_sub : List Field
record_event_sub =
    field "eventId" text
    ∷ field "fromTime" text
    ∷ field "toTime" text
    ∷ field "filePath" text
    ∷ field "thumbnailfilePath" text
    ∷ []

abbrev pub recognition_event_req : List Field
recognition_event_req =
    field "camId" text
    ∷ field "eventId" text
    ∷ field "eventTime" text
    ∷ field "eventType" (enum recognition_type_values)
    ∷ field "eventClass" (enum recognition_event_class_type_values)
    ∷ field "videoFilePath" text
    ∷ field "snapshotFilePath" text
    ∷ field "audioFilePath" text
    ∷ field "coordinate" text
    ∷ field "fidResult" text
    ∷ []

abbrev pub recognition_event_rep : List Field
recognition_event_rep = field "code" int ∷ field "description" text ∷ field "result" int ∷ []

abbrev pub recognition_event_sub : List Field
recognition_event_sub =
    field "eventId" text
    ∷ field "eventTime" text
    ∷ field "eventType" (enum recognition_type_values)
    ∷ field "eventClass" (enum recognition_event_class_type_values)
    ∷ field "videoFilePath" text
    ∷ field "snapshotFilePath" text
    ∷ field "audioFilePath" text
    ∷ field "coordinate" text
    ∷ field "fidResult" text
    ∷ []

abbrev pub camera_status_event_req : List Field
camera_status_event_req =
    field "camId" text
    ∷ field "eventId" text
    ∷ field "statusType" (enum camera_status_event_type_values)
    ∷ field "status" (enum camera_status_values)
    ∷ field "externalStorageHealth" (enum external_storage_health_values)
    ∷ []

abbrev pub camera_status_event_rep : List Field
camera_status_event_rep = field "code" int ∷ field "description" text ∷ field "result" int ∷ []

abbrev pub camera_status_event_sub : List Field
camera_status_event_sub =
    field "eventId" text
    ∷ field "statusType" (enum camera_status_event_type_values)
    ∷ field "status" (enum camera_status_values)
    ∷ field "externalStorageHealth" (enum external_storage_health_values)
    ∷ []
