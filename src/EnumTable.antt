-- ===== src/EnumTable.antt =====
-- The tables of implement/zwsystemInterface/zwsystem_ipc_common.h that name the values of an
-- enumeration. An `int` is the number of its 32 bits: the code only compares it.
pub mod Search
pub mod Names
use Prim.Native.String.{String}
use ipc_with_cht.Prelude.{ℕ, Bool, Option, none, some, List, [], ◌∷◌, ◌==◌, if◌then◌else◌}
use ipc_with_cht.Prelude.Text.{equals}

pub record EnumStrEntry : Type 0 where
  pub value : ℕ
  pub name : String

unfoldable pub enum_to_str : ℕ → List EnumStrEntry → Option String → String
enum_to_str v [] none = ""
enum_to_str v [] (some fallback) = fallback
enum_to_str v (e ∷ es) fallback = if e.value == v then e.name else enum_to_str v es fallback

-- The loop of `str_to_enum`.
unfoldable pub find_name : String → List EnumStrEntry → ℕ → ℕ
find_name s [] fallback = fallback
find_name s (e ∷ es) fallback = if equals e.name s then e.value else find_name s es fallback

-- A null pointer is `none`.
unfoldable pub str_to_enum : Option String → List EnumStrEntry → ℕ → ℕ
unfolding find_name
str_to_enum none es fallback = fallback
str_to_enum (some s) es fallback = find_name s es fallback

-- The enumerations that have a table.
pub data NamedEnum : Type 0 where
  storage_health camera_status recognition_type event_class status_event : NamedEnum

abbrev pub entry : ℕ → String → EnumStrEntry
entry v n = record { value = v; name = n }

abbrev pub health_map : List EnumStrEntry
health_map =
    entry 0 "Normal"
    ∷ entry 1 "NewCard"
    ∷ entry 2 "Damaged"
    ∷ entry 3 "NoCard"
    ∷ entry 4 "Formatting"
    ∷ entry 5 "Other"
    ∷ []

abbrev pub status_map : List EnumStrEntry
status_map =
    entry 0 "Close"
    ∷ entry 1 "Normal"
    ∷ entry 2 "Abnormal"
    ∷ entry 3 "Sleep"
    ∷ entry 4 "Unknown"
    ∷ []

abbrev pub recognition_type_map : List EnumStrEntry
recognition_type_map =
    entry 0 "EED"
    ∷ entry 1 "FR"
    ∷ entry 2 "HSED_Loud"
    ∷ entry 3 "HSED_BabyCry"
    ∷ entry 4 "HSED_Alarm"
    ∷ entry 5 "HSED_Speech"
    ∷ entry 6 "HSED_Dog"
    ∷ entry 7 "HSED_Cat"
    ∷ entry 8 "FED"
    ∷ entry 9 "BD"
    ∷ entry 10 "Unknown"
    ∷ []

abbrev pub event_class_map : List EnumStrEntry
event_class_map =
    entry 0 "Person" ∷ entry 1 "Pet" ∷ entry 2 "Montion" ∷ entry 3 "Face" ∷ entry 4 "Unknown" ∷ []

abbrev pub status_event_map : List EnumStrEntry
status_event_map = entry 2 "Malfunction" ∷ entry 4 "Normal" ∷ entry 5 "Unknown" ∷ []

unfoldable pub table : NamedEnum → List EnumStrEntry
table storage_health = health_map
table camera_status = status_map
table recognition_type = recognition_type_map
table event_class = event_class_map
table status_event = status_event_map

-- What stands for an unknown value, and for an unknown name.
unfoldable pub fallback_name : NamedEnum → String
fallback_name storage_health = "Other"
fallback_name _ = "Unknown"

unfoldable pub fallback_value : NamedEnum → ℕ
fallback_value storage_health = 5
fallback_value camera_status = 4
fallback_value recognition_type = 10
fallback_value event_class = 4
fallback_value status_event = 5

-- zwsystem_ipc_health_int2str and its like.
unfoldable pub int2str : NamedEnum → ℕ → String
unfolding table enum_to_str fallback_name
int2str e v = enum_to_str v (table e) (some (fallback_name e))

-- zwsystem_ipc_health_str2int and its like.
unfoldable pub str2int : NamedEnum → Option String → ℕ
unfolding table str_to_enum fallback_value
str2int e s = str_to_enum s (table e) (fallback_value e)
