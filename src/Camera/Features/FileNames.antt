-- ===== src/Camera/Features/FileNames.antt =====
-- The names of the files that hold the faces: the function `sanitize` of
-- updateIdentificationFeature, and the name that is built from an id and a name.
pub mod Safety
use ipc_with_cht.Prelude.{
  ℕ, suc, ◌≤◌, ◌≡◌, ◌≢◌, refl, sym, ap, ◌∙◌, Bool, true, false, ◌&&◌, ◌||◌, not, Option, none, some,
  List, [], ◌∷◌, ◌++◌, arith, map, ◌==◌, if◌then◌else◌, Bool-cases, inl, inr, is_empty,
}
use ipc_with_cht.Prelude.Bytes.{Bytes}
use ipc_with_cht.Prelude.Text.{codes}
use ipc_with_cht.Prelude.Integers.{ℤ, pos, negsuc, print_int, digits}

abbrev pub is_slash : ℕ → Bool
is_slash c = (c == b'/') || (c == 92)

unfoldable pub slashes : Bytes → Bytes
slashes [] = []
slashes (c ∷ s) = (if is_slash c then b'_' else c) ∷ slashes s

-- `s.find("..", pos)` and `s.replace(pos, 2, "_")` until none is left.
unfoldable pub double_dots : Bytes → Bytes
double_dots [] = []
double_dots (c ∷ []) = c ∷ []
double_dots (c ∷ d ∷ s) =
    let replaced = double_dots s in
    let kept = double_dots (d ∷ s) in
    if (c == b'.') && (d == b'.') then b'_' ∷ replaced else c ∷ kept

unfoldable pub first_dot : Bytes → Bytes
first_dot [] = []
first_dot (c ∷ s) = (if c == b'.' then b'_' else c) ∷ s

unfoldable pub last_dot : Bytes → Bytes
last_dot [] = []
last_dot (c ∷ []) = (if c == b'.' then b'_' else c) ∷ []
last_dot (c ∷ d ∷ s) = c ∷ last_dot (d ∷ s)

abbrev pub or_unnamed : Bytes → Bytes
or_unnamed [] = codes "unnamed"
or_unnamed (c ∷ s) = c ∷ s

unfoldable pub sanitize : Bytes → Bytes
unfolding slashes double_dots first_dot last_dot
sanitize s = or_unnamed (last_dot (first_dot (double_dots (slashes s))))

unfoldable pub file_name : Bytes → Bytes → ℤ → Bytes
file_name i name level = i ++ codes "_" ++ name ++ codes "_" ++ print_int level ++ codes ".fea"

-- What a safe name is.
unfoldable pub has_slash : Bytes → Bool
has_slash [] = false
has_slash (c ∷ s) = let rest = has_slash s in if is_slash c then true else rest

abbrev pub starts_with_dot : Bytes → Bool
starts_with_dot [] = false
starts_with_dot (c ∷ s) = c == b'.'

unfoldable pub has_double_dot : Bytes → Bool
has_double_dot [] = false
has_double_dot (c ∷ s) =
    let rest = has_double_dot s in if (c == b'.') && starts_with_dot s then true else rest

unfoldable pub ends_with_dot : Bytes → Bool
ends_with_dot [] = false
ends_with_dot (c ∷ []) = c == b'.'
ends_with_dot (c ∷ d ∷ s) = ends_with_dot (d ∷ s)

-- A part of a path that names a file where it stands: it has no slash or backslash and no "..",
-- neither starts nor ends with a dot, and is not empty.
unfoldable pub Safe : Bytes → Type 0
Safe s =
    (has_slash s ≡ false)
    × ((has_double_dot s ≡ false)
        × ((starts_with_dot s ≡ false) × ((ends_with_dot s ≡ false) × (is_empty s ≡ false))))
