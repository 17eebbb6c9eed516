-- ===== src/SystemApi/Layout.antt =====
-- Where the fields of a C record lie in memory: each at the next multiple of its alignment, as the
-- LP64 ABIs of the targets have it. The records of zwsystem_ipc_common.h are written with it.
use Prim.Native.String.{String}
use ipc_with_cht.Prelude.{
  ℕ, ◌+◌, ◌-◌, ◌*◌, ◌/◌, Option, none, some, List, [], ◌∷◌, if◌then◌else◌, leb,
}
use ipc_with_cht.Prelude.Text.{equals}

-- The size and the alignment of a type.
pub record CType : Type 0 where
  pub size : ℕ
  pub align : ℕ

pub record Field : Type 0 where
  pub name : String
  pub ctype : CType

abbrev pub field : String → CType → Field
field n t = record { name = n; ctype = t }

-- The scalar types in the records.
abbrev pub bool : CType
bool = record { size = 1; align = 1 }

abbrev pub char : CType
char = record { size = 1; align = 1 }

abbrev pub uint8 : CType
uint8 = record { size = 1; align = 1 }

abbrev pub uint16 : CType
uint16 = record { size = 2; align = 2 }

abbrev pub uint64 : CType
uint64 = record { size = 8; align = 8 }

abbrev pub pointer : CType
pointer = record { size = 8; align = 8 }

abbrev pub int : CType
int = record { size = 4; align = 4 }

abbrev pub uint32 : CType
uint32 = record { size = 4; align = 4 }

abbrev pub float : CType
float = record { size = 4; align = 4 }

-- An enumeration with the values is an `int`.
abbrev pub enum : List (String × ℕ) → CType
enum values = record { size = 4; align = 4 }

abbrev pub long : CType
long = record { size = 8; align = 8 }

abbrev pub array : CType → ℕ → CType
array t n = record { size = n * t.size; align = t.align }

-- The next multiple of an alignment.
unfoldable pub round_up : ℕ → ℕ → ℕ
round_up n a = (n + (a - 1)) / a * a

unfoldable pub max_align : List Field → ℕ
max_align [] = 1
max_align (f ∷ fs) =
    let rest = max_align fs in if leb f.ctype.align rest then rest else f.ctype.align

-- The end of the fields that are put behind an offset.
unfoldable pub end_of : ℕ → List Field → ℕ
unfolding round_up
end_of o [] = o
end_of o (f ∷ fs) = end_of (round_up o f.ctype.align + f.ctype.size) fs

unfoldable pub struct : List Field → CType
unfolding round_up max_align end_of
struct fs = record { size = round_up (end_of 0 fs) (max_align fs); align = max_align fs }

-- The offset and the type of a field, if the record has it.
unfoldable pub offset_from : ℕ → String → List Field → Option (ℕ × CType)
unfolding round_up
offset_from o n [] = none
offset_from o n (f ∷ fs) =
    let at_o = round_up o f.ctype.align in
    if equals f.name n then some (at_o, f.ctype) else offset_from (at_o + f.ctype.size) n fs

abbrev pub offset_of : String → List Field → Option (ℕ × CType)
offset_of n fs = offset_from 0 n fs

-- ZWSYSTEM_IPC_STRING_SIZE
abbrev pub string_size : ℕ
string_size = 256

-- A `char` array of the usual size.
abbrev pub text : CType
text = array char string_size
