-- ===== src/Camera/Json.antt =====
-- What the manager reads of a rapidjson value: the tests and accessors that it calls. The parser
-- itself is the library's, and an argument of the model.
use ipc_with_cht.Prelude.{Option, none, some, [], ◌∷◌, ◌==◌, if◌then◌else◌}
use ipc_with_cht.Prelude.Bytes.{Bytes, same_text}
use ipc_with_cht.Prelude.Integers.{ℤ}

-- `IsString`, `IsInt`, `IsObject` and `IsArray` hold of one constructor each, and none of `other`.
mutual
  pub data Json : Type 0 where
    text : Bytes → Json
    int : ℤ → Json
    object : Members → Json
    array : Elements → Json
    other : Json

  pub data Members : Type 0 where
    no_more : Members
    member : Bytes → Json → Members → Members

  pub data Elements : Type 0 where
    end_of : Elements
    element : Json → Elements → Elements

-- `FindMember`
unfoldable pub find_member : Bytes → Members → Option Json
find_member k no_more = none
find_member k (member j v ms) = if same_text j k then some v else find_member k ms

-- `GetString` is a C string where the manager takes it: it ends at the first zero.
unfoldable pub get_string : Bytes → Bytes
get_string [] = []
get_string (c ∷ s) = let rest = get_string s in if c == 0 then [] else c ∷ rest

-- The text of a member, if there is one and it is a text.
unfoldable pub text_member : Bytes → Members → Option Bytes
unfolding find_member get_string
text_member k ms = elim (find_member k ms) [ some (text t) ↦ some (get_string t) | _ ↦ none ]

unfoldable pub int_member : Bytes → Members → Option ℤ
unfolding find_member
int_member k ms = elim (find_member k ms) [ some (int i) ↦ some i | _ ↦ none ]

unfoldable pub object_member : Bytes → Members → Option Members
unfolding find_member
object_member k ms = elim (find_member k ms) [ some (object m) ↦ some m | _ ↦ none ]
