-- ===== src/Camera/Features.antt =====
-- The faces that the camera knows: addIdentificationFeature, removeIdentificationFeature and
-- updateIdentificationFeature of camera_parameters_manager.cpp.
pub mod Limits
pub mod FileNames
pub mod Identity
use ipc_with_cht.Prelude.{
  ℕ, Bool, true, false, Option, none, some, List, [], ◌∷◌, ◌++◌, leb, length, if◌then◌else◌,
}
use ipc_with_cht.Prelude.Bytes.{Bytes, same_text}
use ipc_with_cht.Prelude.Text.{codes}
use ipc_with_cht.Camera.Store.{IdentificationFeature, Store, Step, notify_parameter_changed}

abbrev pub max_features : ℕ
max_features = 20

-- Whether a feature of the list has the id.
unfoldable pub has_id : Bytes → List IdentificationFeature → Bool
has_id i [] = false
has_id i (f ∷ fs) =
    let rest = has_id i fs in if same_text (IdentificationFeature.id f) i then true else rest

abbrev pub with_features : List IdentificationFeature → Store → Store
with_features fs s = record {
  parameters = Store.parameters s;
  times = Store.times s;
  callbacks = Store.callbacks s;
  next_id = Store.next_id s;
  features = fs;
}

-- The list put in place, and the callbacks told of it.
unfoldable pub announce : Bytes → Bytes → List IdentificationFeature → Store → Bool × Step
unfolding notify_parameter_changed
announce what i fs s = (
  true,
  (
    with_features fs s,
    notify_parameter_changed (codes "identificationFeatures") (what ++ i) (with_features fs s),
  ),
)

unfoldable pub get_features : Store → List IdentificationFeature
get_features s = Store.features s

unfoldable pub add_feature : IdentificationFeature → Store → Bool × Step
unfolding has_id announce
add_feature f s =
    if has_id (IdentificationFeature.id f) (Store.features s)
    then (false, (s, []))
    else (if leb max_features (length (Store.features s))
        then (false, (s, []))
        else announce (codes "added:") (IdentificationFeature.id f) (Store.features s ++ f ∷ []) s)

-- The list without the first feature of this id; `none` is `end()`.
unfoldable pub erase_feature :
    Bytes → List IdentificationFeature → Option (List IdentificationFeature)
erase_feature i [] = none
erase_feature i (f ∷ fs) =
    let rest = erase_feature i fs in
    if same_text (IdentificationFeature.id f) i
    then some fs
    else elim rest [ none ↦ none | some gs ↦ some (f ∷ gs) ]

unfoldable pub remove_feature : Bytes → Store → Bool × Step
unfolding erase_feature announce
remove_feature i s = elim (erase_feature i (Store.features s)) [
  | none ↦ (false, (s, []))
  | some fs ↦ announce (codes "removed:") i fs s
]

-- The list with the first feature of this id replaced.
unfoldable pub replace_feature :
    Bytes → IdentificationFeature → List IdentificationFeature → Option (List IdentificationFeature)
replace_feature i g [] = none
replace_feature i g (f ∷ fs) =
    let rest = replace_feature i g fs in
    if same_text (IdentificationFeature.id f) i
    then some (g ∷ fs)
    else elim rest [ none ↦ none | some gs ↦ some (f ∷ gs) ]

unfoldable pub update_feature : Bytes → IdentificationFeature → Store → Bool × Step
unfolding replace_feature announce
update_feature i g s = elim (replace_feature i g (Store.features s)) [
  | none ↦ (false, (s, []))
  | some fs ↦ announce (codes "updated:") i fs s
]
