-- ===== src/Examples/Camera.antt =====
-- The parameters of the camera at concrete values.
use ipc_with_cht.Prelude.{
  false, ◌↔◌, ◌≡◌, ◌≢◌, refl, true, Option, none, some, List, [], ◌∷◌, ◌++◌, arith, inl, inr, ◌⊎◌,
  replicate, if◌then◌else◌,
}
use ipc_with_cht.Prelude.Bytes.{Bytes, same_text}
use ipc_with_cht.Prelude.Text.{codes}
use ipc_with_cht.Prelude.Dict.{lookup}
use ipc_with_cht.Prelude.Integers.{print_int, pos, is_int}
use ipc_with_cht.Camera.Base64.{decode_base64, encode_base64}
use ipc_with_cht.Camera.Base64.Roundtrip.{decode-encode_base64}
use ipc_with_cht.Camera.Base64.Blanks.{strip, decode_base64-strip}
use ipc_with_cht.Camera.Store.{is_some, IdentificationFeature, Store, then_step, new, set_parameter}
use ipc_with_cht.Camera.Json.{
  Json, text, int, object, array, Members, no_more, member, end_of, element, int_member,
  text_member, find_member,
}
use ipc_with_cht.Camera.Runs.{
  Call, set, set_ntp, remove, register, unregister, add_face, update_face, name_camera, call, run,
}
use ipc_with_cht.Camera.Runs.Told.{NotTold}
use ipc_with_cht.Camera.Runs.Registration.{reached-Registered, unregistered_silent}
use ipc_with_cht.Camera.Runs.Keys.{reached-Dated}
use ipc_with_cht.Camera.Runs.Mirror.{mirror, Mirrors, writes, run-Mirrors}
use ipc_with_cht.Camera.Features.Limits.{Distinct}
use ipc_with_cht.Camera.Features.Identity.{keeps_ids, reached-Distinct}
use ipc_with_cht.Camera.Faces.{written, update_features}
use ipc_with_cht.Camera.Faces.Stored.{Holds, update_features-Holds}
use ipc_with_cht.Camera.Settings.{
  Applied, applied, set_text_members, set_int_members, parse_hami_settings,
  parse_hami_system_settings, apply_system_settings,
}
use ipc_with_cht.Camera.Settings.Keys.{settings_texts, settings_ints}
use ipc_with_cht.Camera.Settings.Read.{listed, or_else, int_text, parse_hami_settings_reads}
use ipc_with_cht.Camera.Settings.Ntp.{parse_hami_system_settings_never_syncs}
use ipc_with_cht.Camera.Settings.Calls.{parses_mirrored}
use ipc_with_cht.Camera.Fields.{camera_type, model, get_field, set_field, setter_key}
use ipc_with_cht.Camera.Fields.Pairs.{get_field-set_field}
use ipc_with_cht.Camera.SettingGetters.{power, int_setting, int_setting_key}
use ipc_with_cht.Camera.SettingGetters.Taken.{int_setting_taken}
use ipc_with_cht.Camera.Initial.{validate_parameter}
use ipc_with_cht.TimeZones.{is_valid_timezone_id}
use ipc_with_cht.TimeZones.Known.{IsGap, validate_parameter_unknown}

abbrev hello : Bytes
hello = codes "Hello"

decode-encode_base64_example : decode_base64 (encode_base64 hello) ≡ some hello
decode-encode_base64_example =
    decode-encode_base64 hello
      (omega arith, (omega arith, (omega arith, (omega arith, (omega arith, tt)))))

abbrev spaced : Bytes
spaced = codes "SG Vs bG 8="

decode_base64-strip_example : decode_base64 spaced ≡ decode_base64 (strip spaced)
decode_base64-strip_example = decode_base64-strip spaced

abbrev listening : List Call
listening = register [] ∷ register (codes "power") ∷ []

abbrev changes : List Call
changes =
    set 10 (codes "power") (codes "80")
    ∷ set_ntp 11 (codes "time.example.org")
    ∷ set 12 (codes "power") (codes "80")
    ∷ []

start-Mirrors : Mirrors 1 [] (run listening new).0
unfolding run call new
start-Mirrors = (reached-Registered listening, (inl (refl, refl), λ j. refl))

run-Mirrors_example :
    Mirrors 1
      (mirror 1 (run changes (run listening new).0).1 [])
      (run changes (run listening new).0).0
unfolding writes
run-Mirrors_example = run-Mirrors 1 changes [] (run listening new).0 refl start-Mirrors

unregistered_silent_example :
    NotTold 2 (run changes (call (unregister 2) (run listening new).0).0).1
unfolding run call new
unregistered_silent_example = unregistered_silent listening changes 2 (omega arith)

abbrev named : List Call
named = changes ++ remove (codes "power") ∷ name_camera (some (codes "00:11:22:33:44:55")) ∷ []

reached-Dated_example :
    is_some (lookup (codes "power") (Store.parameters (run named new).0))
    ≡ is_some (lookup (codes "power") (Store.times (run named new).0))
reached-Dated_example = reached-Dated named (codes "power") (ground arith)

abbrev ann : Bytes → IdentificationFeature
ann n = record {
  id = codes "7";
  name = n;
  face_features = [];
  verify_level = pos 1;
  create_time = [];
  update_time = [];
}

abbrev face_calls : List Call
face_calls = add_face (ann (codes "Ann")) ∷ update_face (codes "7") (ann (codes "Anne")) ∷ []

reached-Distinct_example : Distinct (Store.features (run face_calls new).0)
unfolding keeps_ids same_text
reached-Distinct_example = reached-Distinct face_calls refl

-- One face whose name is a path.
abbrev faces_document : Json
faces_document = object (
    member (codes "identificationFeatures")
      (array (
        element
          (object (
            member (codes "id") (int (pos 7)) (
              member (codes "name") (text (codes "../ann")) (
                member (codes "verifyLevel") (int (pos 1)) (
                  member (codes "createTime") (text (codes "2026")) (
                    member (codes "updateTime") (text (codes "2026")) (
                      member (codes "faceFeatures") (text (encode_base64 (replicate 2048 7)))
                        no_more)))))))
          end_of))
      no_more)

update_features-Holds_example :
    Holds (update_features (λ t. some faces_document) (λ n. written) (codes "faces") new)
update_features-Holds_example =
    update_features-Holds (λ t. some faces_document) (λ n. written) (codes "faces") new

abbrev settings_members : Members
settings_members =
    member (codes "nightMode") (text (codes "1")) (member (codes "power") (int (pos 80)) no_more)

abbrev read_settings : Bytes → Option Json
read_settings t = some (object settings_members)

abbrev listened : Store
listened = (run listening new).0

parse_hami_settings_reads_example :
    (a : Applied) × ((parse_hami_settings read_settings 20 (codes "s") listened ≡ some a)
      × ((Applied.ok a ≡ true)
          × ((j : Bytes)
              → lookup j (Store.parameters (Applied.step a).0)
                ≡ or_else (if listed j settings_ints then int_text j settings_members else none) (
                    or_else
                      (if listed j settings_texts then text_member j settings_members else none)
                      (lookup j (Store.parameters listened))))))
unfolding same_text
parse_hami_settings_reads_example =
    parse_hami_settings_reads read_settings 20 (codes "s") settings_members listened refl refl

int_setting_taken_example :
    (a : Applied) × ((parse_hami_settings read_settings 20 (codes "s") listened ≡ some a)
      × ((Applied.ok a ≡ true) × (int_setting power (Applied.step a).0 ≡ some (pos 80))))
unfolding same_text listed int_setting_key int_member find_member is_int
int_setting_taken_example =
    int_setting_taken read_settings 20 (codes "s") settings_members listened power (pos 80) refl
      refl refl refl refl

-- The parameters of the text, set one after another.
abbrev taken : Applied
taken = applied true (
    then_step (set_text_members 20 settings_texts settings_members listened)
      (set_int_members 20 settings_ints settings_members))

parses_mirrored_example : Mirrors 1 (mirror 1 (Applied.step taken).1 []) (Applied.step taken).0
unfolding parse_hami_settings same_text
parses_mirrored_example =
    parses_mirrored read_settings 20 (codes "s") listened 1 [] taken start-Mirrors (inr (inl refl))

abbrev ntp_members : Members
ntp_members = member (codes "ntpServer") (text (codes "time.example.org")) no_more

parse_hami_system_settings_never_syncs_example :
    Applied.syncs (apply_system_settings 20 ntp_members listened) ≡ []
unfolding parse_hami_system_settings same_text
parse_hami_system_settings_never_syncs_example =
    parse_hami_system_settings_never_syncs (λ t. some (object ntp_members)) 20 (codes "s") listened
      (apply_system_settings 20 ntp_members listened) refl

get_field-set_field_example :
    ((model ≡ camera_type)
      × (get_field model (set_parameter 20 (codes "cameraType") (codes "dome") listened).0
          ≡ codes "dome"))
    ⊎ ((model ≢ camera_type)
        × (get_field model (set_parameter 20 (codes "cameraType") (codes "dome") listened).0
            ≡ get_field model listened))
unfolding set_field setter_key
get_field-set_field_example =
    get_field-set_field model camera_type 20 (codes "dome") listened
      (set_parameter 20 (codes "cameraType") (codes "dome") listened) refl

validate_parameter_unknown_example :
    ((validate_parameter (codes "timezone") (print_int (pos 30)) ≡ true)
      × (is_valid_timezone_id (print_int (pos 30)) ≡ false))
    ↔ IsGap (pos 30)
unfolding is_int
validate_parameter_unknown_example = validate_parameter_unknown (pos 30) refl
