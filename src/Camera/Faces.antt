-- ===== src/Camera/Faces.antt =====
-- The table of faces that a JSON text brings: updateIdentificationFeature(aiSettingJson) of
-- camera_parameters_manager.cpp.
pub mod Stored
use ipc_with_cht.Prelude.{
  ℕ, ◌==◌, Bool, true, false, ◌&&◌, not, Option, none, some, List, [], ◌∷◌, ◌++◌, length, is_empty,
  if◌then◌else◌,
}
use ipc_with_cht.Prelude.Bytes.{Bytes, same_text}
use ipc_with_cht.Prelude.Text.{codes}
use ipc_with_cht.Prelude.Integers.{ℤ, print_int}
use ipc_with_cht.Camera.Json.{
  Json, text, int, object, array, other, Members, Elements, end_of, element, find_member,
  text_member, int_member,
}
use ipc_with_cht.Camera.Base64.{decode_base64}
use ipc_with_cht.Camera.Store.{IdentificationFeature, Store}
use ipc_with_cht.Camera.Features.{with_features}
use ipc_with_cht.Camera.Features.FileNames.{sanitize, file_name}

-- The members that a feature must have, as the source reads them, one after another.
unfoldable pub read_feature : Members → Option IdentificationFeature
read_feature m = elim (int_member (codes "id") m) [
  | none ↦ none
  | some i ↦ elim (text_member (codes "name") m) [
    | none ↦ none
    | some n ↦ elim (int_member (codes "verifyLevel") m) [
      | none ↦ none
      | some l ↦ elim (text_member (codes "createTime") m) [
        | none ↦ none
        | some c ↦ elim (text_member (codes "updateTime") m) [
          | none ↦ none
          | some u ↦ elim (text_member (codes "faceFeatures") m) [
            | none ↦ none
            | some t ↦ some record {
              id = print_int i;
              name = n;
              face_features = t;
              verify_level = l;
              create_time = c;
              update_time = u;
            }
          ]
        ]
      ]
    ]
  ]
]

abbrev pub face_size : ℕ
face_size = 2048

unfoldable pub sanitized : IdentificationFeature → IdentificationFeature
unfolding sanitize
sanitized f = record {
  id = sanitize (IdentificationFeature.id f);
  name = sanitize (IdentificationFeature.name f);
  face_features = IdentificationFeature.face_features f;
  verify_level = IdentificationFeature.verify_level f;
  create_time = IdentificationFeature.create_time f;
  update_time = IdentificationFeature.update_time f;
}

-- A file of the temporary folder.
pub record File : Type 0 where
  pub name : Bytes
  pub contents : Bytes

abbrev pub feature_file : IdentificationFeature → Bytes → File
feature_file f bs = record {
  name =
      file_name (IdentificationFeature.id f) (IdentificationFeature.name f)
        (IdentificationFeature.verify_level f);
  contents = bs;
}

-- `std::ios::trunc`: the file replaces one of the same name.
unfoldable pub put_file : File → List File → List File
put_file f [] = f ∷ []
put_file f (g ∷ gs) =
    let rest = put_file f gs in if same_text (File.name g) (File.name f) then f ∷ gs else g ∷ rest

-- What becomes of a file that is opened for writing: it cannot be opened, it holds these bytes when
-- a write has failed, or it is written.
pub data Writing : Type 0 where
  not_opened written : Writing
  cut_short : Bytes → Writing

abbrev pub is_written : Writing → Bool
is_written written = true
is_written _ = false

unfoldable pub write_file : Writing → File → List File → List File
unfolding put_file
write_file not_opened f files = files
write_file written f files = put_file f files
write_file (cut_short left) f files =
    put_file (record { name = File.name f; contents = left }) files

-- The features taken over so far, and the files of the temporary folder.
pub record Batch : Type 0 where
  pub taken : List IdentificationFeature
  pub files : List File

-- A feature behind its decoding: a text that is not base64 is written as an empty file and then
-- passed over, one of another size than 2048 bytes is passed over at once. `disk` says what becomes
-- of a file of a name; a failure that shows only when the file is closed is not seen by the source.
unfoldable pub take_decoded :
    (Bytes → Writing) → IdentificationFeature → Option Bytes → Batch → Batch
unfolding write_file
take_decoded disk f none b =
    let file = feature_file f [] in
    record b { files = write_file (disk (File.name file)) file (Batch.files b) }
take_decoded disk f (some bs) b =
    let file = feature_file f bs in
    let taken = Batch.taken b in
    if length bs == face_size
    then record {
      taken = if is_written (disk (File.name file)) then taken ++ f ∷ [] else taken;
      files = write_file (disk (File.name file)) file (Batch.files b);
    }
    else b

unfoldable pub take_feature : (Bytes → Writing) → IdentificationFeature → Batch → Batch
unfolding sanitized take_decoded
take_feature disk f b =
    take_decoded disk (sanitized f) (decode_base64 (IdentificationFeature.face_features f)) b

-- An element of the array, which is passed over if it is no object or lacks a member.
unfoldable pub take_element : (Bytes → Writing) → Json → Batch → Batch
unfolding read_feature take_feature
take_element disk (object m) b = elim (read_feature m) [ none ↦ b | some f ↦ take_feature disk f b ]
take_element disk (text t) b = b
take_element disk (int i) b = b
take_element disk (array es) b = b
take_element disk other b = b

unfoldable pub take_elements : (Bytes → Writing) → Elements → Batch → Batch
unfolding take_element
take_elements disk end_of b = b
take_elements disk (element v es) b = take_elements disk es (take_element disk v b)

-- What the call leaves: its result, the store, and the files that it has put into the folder of the
-- faces, if it has replaced that folder.
pub record Outcome : Type 0 where
  pub ok : Bool
  pub store : Store
  pub folder : Option (List File)

abbrev pub nothing_taken : Store → Outcome
nothing_taken s = record { ok = true; store = s; folder = none }

abbrev pub failed : Store → Outcome
failed s = record { ok = false; store = s; folder = none }

-- `if (newFeatures.size())`: the folder and the table are replaced.
unfoldable pub install : Batch → Store → Outcome
install b s = if is_empty (Batch.taken b) then nothing_taken s else record {
  ok = true;
  store = with_features (Batch.taken b) s;
  folder = some (Batch.files b);
}

-- The array of features; `none` is an exception, of a text that is no JSON object or lacks it.
unfoldable pub features_array : Option Json → Option Elements
unfolding find_member
features_array (some (object m)) = elim (find_member (codes "identificationFeatures") m) [
  | some (array es) ↦ some es
  | _ ↦ none
]
features_array o = none

-- `parse` is rapidjson's parser; `none` is an error.
unfoldable pub update_features : (Bytes → Option Json) → (Bytes → Writing) → Bytes → Store → Outcome
unfolding features_array take_elements install
update_features parse disk s st = elim (features_array (parse s)) [
  | none ↦ failed st
  | some es ↦ install (take_elements disk es (record { taken = []; files = [] })) st
]
