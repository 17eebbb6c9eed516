-- ===== src/SystemApi/Events.antt =====
-- The events that the system publishes, the functions that are declared only, and the tables that
-- name the values of an enumeration.
use Prim.Native.String.{String}
use ipc_with_cht.Prelude.{ℕ, ◌≡◌, ◌<◌, ◌^◌, refl, true, some, List, map, ltb, ltb→lt}
use ipc_with_cht.EnumTable.{
  NamedEnum, storage_health, camera_status, recognition_type, event_class, status_event, table,
}
use ipc_with_cht.SystemApi.Layout.{Field, text, struct, offset_of, offset_from}
use ipc_with_cht.SystemApi.Enumerations.{
  external_storage_health_values, camera_status_values, recognition_type_values,
  recognition_event_class_type_values, camera_status_event_type_values,
}
use ipc_with_cht.SystemApi.EventRecords.{
  snapshot_event_sub, record_event_sub, recognition_event_sub, camera_status_event_sub,
  record_event_req, record_event_rep, recognition_event_req, recognition_event_rep,
  camera_status_event_req, camera_status_event_rep,
}
use ipc_with_cht.SystemApi.CameraRecords.{default_record}
use ipc_with_cht.SystemApi.OtherRecords.{
  camer_register_req, camer_register_rep, check_hioss_status_req, check_hioss_status_rep,
  get_hamicam_initial_info_req, get_hamicam_initial_info_rep, set_camera_hd_req, set_camera_hd_rep,
  set_image_quality_req, set_image_quality_rep,
}
use ipc_with_cht.SystemApi.Replies.{IsExchange, is_exchange}

-- The kinds of events with a record of their own.
pub data Published : Type 0 where
  snapshots recordings recognitions status_changes : Published

unfoldable pub published_record : Published → List Field
published_record snapshots = snapshot_event_sub
published_record recordings = record_event_sub
published_record recognitions = recognition_event_sub
published_record status_changes = camera_status_event_sub

-- The event's id comes first, and the size is a number of 32 bits.
pub record IsEvent (fs : List Field) : Type 0 where
  pub id_first : offset_of "eventId" fs ≡ some (0, text)
  pub size_fits : (struct fs).size < 2 ^ 32

is_event :
    {fs : List Field}
    → offset_of "eventId" fs ≡ some (0, text)
    → ltb (struct fs).size (2 ^ 32) ≡ true
    → IsEvent fs
is_event e p = record { id_first = e; size_fits = ltb→lt _ _ p }

-- Every published record starts with the event's id, 256 bytes at offset 0, and its size is below
-- 2^32.
pub published_record-IsEvent : (p : Published) → IsEvent (published_record p)
unfolding published_record struct offset_from
published_record-IsEvent snapshots = is_event refl refl
published_record-IsEvent recordings = is_event refl refl
published_record-IsEvent recognitions = is_event refl refl
published_record-IsEvent status_changes = is_event refl refl

-- The functions of zwsystem_ipc_client.h that no file defines.
pub data DeclaredFunction : Type 0 where
  declares_camera_register declares_check_hioss_status : DeclaredFunction
  declares_get_hamicam_initial_info declares_set_camera_hd : DeclaredFunction
  declares_set_image_quality declares_feedback_snapshot : DeclaredFunction
  declares_feedback_record_event declares_feedback_recognition_event : DeclaredFunction
  declares_feedback_camera_status_event : DeclaredFunction

-- The request and the reply of the declaration.
unfoldable pub declared_records : DeclaredFunction → List Field × List Field
declared_records declares_camera_register = (camer_register_req, camer_register_rep)
declared_records declares_check_hioss_status = (check_hioss_status_req, check_hioss_status_rep)
declared_records declares_get_hamicam_initial_info =
    (get_hamicam_initial_info_req, get_hamicam_initial_info_rep)
declared_records declares_set_camera_hd = (set_camera_hd_req, set_camera_hd_rep)
declared_records declares_set_image_quality = (set_image_quality_req, set_image_quality_rep)
declared_records declares_feedback_snapshot = (default_record, default_record)
declared_records declares_feedback_record_event = (record_event_req, record_event_rep)
declared_records declares_feedback_recognition_event =
    (recognition_event_req, recognition_event_rep)
declared_records declares_feedback_camera_status_event =
    (camera_status_event_req, camera_status_event_rep)

-- The functions that are declared without a definition have records of the same form: the reply
-- starts with a result code at 0 and a description of 256 bytes at 4, and the sizes of both are
-- below 2^32.
pub declared_records-IsExchange :
    (f : DeclaredFunction) → IsExchange (declared_records f).0 (declared_records f).1
unfolding declared_records struct offset_from
declared_records-IsExchange declares_camera_register = is_exchange refl refl refl refl
declared_records-IsExchange declares_check_hioss_status = is_exchange refl refl refl refl
declared_records-IsExchange declares_get_hamicam_initial_info = is_exchange refl refl refl refl
declared_records-IsExchange declares_set_camera_hd = is_exchange refl refl refl refl
declared_records-IsExchange declares_set_image_quality = is_exchange refl refl refl refl
declared_records-IsExchange declares_feedback_snapshot = is_exchange refl refl refl refl
declared_records-IsExchange declares_feedback_record_event = is_exchange refl refl refl refl
declared_records-IsExchange declares_feedback_recognition_event = is_exchange refl refl refl refl
declared_records-IsExchange declares_feedback_camera_status_event = is_exchange refl refl refl refl

-- The enumeration that a table is for.
unfoldable pub values_of : NamedEnum → List (String × ℕ)
values_of storage_health = external_storage_health_values
values_of camera_status = camera_status_values
values_of recognition_type = recognition_type_values
values_of event_class = recognition_event_class_type_values
values_of status_event = camera_status_event_type_values

-- Each table of names has an entry for every value of its enumeration, in the same order, and no
-- other.
pub table_complete :
    (e : NamedEnum) → map (λ entry. entry.value) (table e) ≡ map (λ v. v.1) (values_of e)
unfolding table values_of
table_complete storage_health = refl
table_complete camera_status = refl
table_complete recognition_type = refl
table_complete event_class = refl
table_complete status_event = refl
