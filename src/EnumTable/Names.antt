-- ===== src/EnumTable/Names.antt =====
-- The name of a value and the value of a name, for each enumeration of zwsystem_ipc_common.h.
use Prim.Native.String.{String}
use ipc_with_cht.Prelude.{ℕ, ◌≡◌, refl, true, some, ◌∙◌, ap, if◌then◌else◌, inl, inr, Bool-cases}
use ipc_with_cht.EnumTable.{
  NamedEnum, storage_health, camera_status, recognition_type, event_class, status_event, table,
  fallback_name, fallback_value, int2str, str2int, enum_to_str, str_to_enum,
}
use ipc_with_cht.EnumTable.Search.{
  has_value, has_name, distinct_values, distinct_names, find_name-enum_to_str,
  enum_to_str-find_name, enum_to_str_unknown, find_name_unknown,
}

table-distinct_names : (e : NamedEnum) → distinct_names (table e) ≡ true
unfolding distinct_names table
table-distinct_names storage_health = refl
table-distinct_names camera_status = refl
table-distinct_names recognition_type = refl
table-distinct_names event_class = refl
table-distinct_names status_event = refl

table-distinct_values : (e : NamedEnum) → distinct_values (table e) ≡ true
unfolding distinct_values table
table-distinct_values storage_health = refl
table-distinct_values camera_status = refl
table-distinct_values recognition_type = refl
table-distinct_values event_class = refl
table-distinct_values status_event = refl

str2int-fallback : (e : NamedEnum) → str2int e (some (fallback_name e)) ≡ fallback_value e
unfolding str2int fallback_value fallback_name
str2int-fallback storage_health = refl
str2int-fallback camera_status = refl
str2int-fallback recognition_type = refl
str2int-fallback event_class = refl
str2int-fallback status_event = refl

int2str-fallback : (e : NamedEnum) → int2str e (fallback_value e) ≡ fallback_name e
unfolding int2str fallback_value fallback_name
int2str-fallback storage_health = refl
int2str-fallback camera_status = refl
int2str-fallback recognition_type = refl
int2str-fallback event_class = refl
int2str-fallback status_event = refl

-- For every enumeration and every number, the name that is given for it is read back as the number
-- itself, if it is a value of the enumeration, and as the value Unknown (Other) if it is not.
pub str2int-int2str :
    (e : NamedEnum) (v : ℕ)
    → str2int e (some (int2str e v)) ≡ (if has_value v (table e) then v else fallback_value e)
unfolding int2str str2int
str2int-int2str e v = elim (Bool-cases (has_value v (table e))) [
  | inl known ↦ rw known (
      find_name-enum_to_str v (table e) (some (fallback_name e)) (fallback_value e)
        (table-distinct_names e) known)
  | inr unknown ↦ rw unknown (
      ap (λ n. str_to_enum (some n) (table e) (fallback_value e))
        (enum_to_str_unknown v (table e) (fallback_name e) unknown)
      ∙ str2int-fallback e)
]

-- For every enumeration and every text, the value that is given for it has the text as its name,
-- if it is a name of the table, and the name Unknown (Other) if it is not.
pub int2str-str2int :
    (e : NamedEnum) (s : String)
    → int2str e (str2int e (some s)) ≡ (if has_name s (table e) then s else fallback_name e)
unfolding int2str str2int
int2str-str2int e s = elim (Bool-cases (has_name s (table e))) [
  | inl known ↦ rw known (
      enum_to_str-find_name s (table e) (some (fallback_name e)) (fallback_value e)
        (table-distinct_values e) known)
  | inr unknown ↦ rw unknown (
      ap (λ v. enum_to_str v (table e) (some (fallback_name e)))
        (find_name_unknown s (table e) (fallback_value e) unknown)
      ∙ int2str-fallback e)
]
