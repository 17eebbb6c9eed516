-- ===== src/EnumTable/Search.antt =====
-- The two searches of zwsystem_ipc_common.h over one table undo each other.
use Prim.Native.String.{String}
use ipc_with_cht.Prelude.{
  ℕ, ◌≡◌, refl, Bool, true, false, Option, some, List, [], ◌∷◌, ◌==◌, if◌then◌else◌, arith,
}
use ipc_with_cht.Prelude.Text.{equals, equals_iff}
use ipc_with_cht.EnumTable.{EnumStrEntry, enum_to_str, find_name}

-- Whether the table has an entry with the value, or with the name.
unfoldable pub has_value : ℕ → List EnumStrEntry → Bool
has_value v [] = false
has_value v (e ∷ es) = if e.value == v then true else has_value v es

unfoldable pub has_name : String → List EnumStrEntry → Bool
has_name s [] = false
has_name s (e ∷ es) = if equals e.name s then true else has_name s es

-- No value, or no name, stands twice.
unfoldable pub distinct_values : List EnumStrEntry → Bool
unfolding has_value
distinct_values [] = true
distinct_values (e ∷ es) = if has_value e.value es then false else distinct_values es

unfoldable pub distinct_names : List EnumStrEntry → Bool
unfolding has_name
distinct_names [] = true
distinct_names (e ∷ es) = if has_name e.name es then false else distinct_names es

has_name-enum_to_str :
    (v : ℕ) (es : List EnumStrEntry) (f : Option String)
    → has_value v es ≡ true
    → has_name (enum_to_str v es f) es ≡ true
unfolding has_value has_name enum_to_str
has_name-enum_to_str v [] f h = cc
has_name-enum_to_str v (e ∷ es) f h =
    ground (arith, equals_iff e.name e.name, has_name-enum_to_str v es f)

has_value-find_name :
    (s : String) (es : List EnumStrEntry) (d : ℕ)
    → has_name s es ≡ true
    → has_value (find_name s es d) es ≡ true
unfolding has_value has_name find_name
has_value-find_name s [] d h = cc
has_value-find_name s (e ∷ es) d h = ground (arith, has_value-find_name s es d)

pub find_name-enum_to_str :
    (v : ℕ) (es : List EnumStrEntry) (f : Option String) (d : ℕ)
    → distinct_names es ≡ true
    → has_value v es ≡ true
    → find_name (enum_to_str v es f) es d ≡ v
unfolding has_value distinct_names has_name find_name enum_to_str
find_name-enum_to_str v [] f d u h = cc
find_name-enum_to_str v (e ∷ es) f d u h = ground (
  arith,
  equals_iff e.name e.name,
  equals_iff e.name (enum_to_str v es f),
  has_name-enum_to_str v es f,
  find_name-enum_to_str v es f d,
)

pub enum_to_str-find_name :
    (s : String) (es : List EnumStrEntry) (f : Option String) (d : ℕ)
    → distinct_values es ≡ true
    → has_name s es ≡ true
    → enum_to_str (find_name s es d) es f ≡ s
unfolding has_value distinct_values has_name find_name enum_to_str
enum_to_str-find_name s [] f d u h = cc
enum_to_str-find_name s (e ∷ es) f d u h =
    ground (arith, equals_iff e.name s, has_value-find_name s es d, enum_to_str-find_name s es f d)

-- What is not in the table is the fallback.
pub enum_to_str_unknown :
    (v : ℕ) (es : List EnumStrEntry) (f : String)
    → has_value v es ≡ false
    → enum_to_str v es (some f) ≡ f
unfolding has_value enum_to_str
enum_to_str_unknown v [] f h = refl
enum_to_str_unknown v (e ∷ es) f h = ground (arith, enum_to_str_unknown v es f)

pub find_name_unknown :
    (s : String) (es : List EnumStrEntry) (d : ℕ) → has_name s es ≡ false → find_name s es d ≡ d
unfolding has_name find_name
find_name_unknown s [] d h = refl
find_name_unknown s (e ∷ es) d h = ground (arith, find_name_unknown s es d)
