-- ===== src/Camera/Fields/Pairs.antt =====
-- What a setter of the camera's parameters writes, its own getter reads, and the getter of no other field.
use ipc_with_cht.Prelude.{
  ℕ, ◌≡◌, ◌≢◌, refl, sym, ap, ◌∙◌, true, Option, none, some, List, [], ◌∷◌, arith, inl, inr, ◌⊎◌,
  Bool-cases, Option-cases, if◌then◌else◌,
}
use ipc_with_cht.Prelude.Bytes.{Bytes, same_text, same_text_iff, same_text_refl}
use ipc_with_cht.Prelude.Text.{codes}
use ipc_with_cht.Prelude.Integers.{ℤ, print_int, is_int}
use ipc_with_cht.Prelude.Integers.Roundtrip.{parse_int-print_int}
use ipc_with_cht.Camera.Store.{Store, Step, write, get_parameter, set_parameter}
use ipc_with_cht.Camera.Store.Values.{
  get_parameter-set_parameter, lookup-insert, set_parameter_writes,
}
use ipc_with_cht.Camera.Fields.{
  Field, cam_id, cht_barcode, tenant_id, public_ip, osd_rule, wifi_ssid, firmware_version,
  camera_status, storage_health, active_status, device_status, ai_settings, mac_address, time_zone,
  net_no, vs_domain, vs_token, camera_type, model, brand, user_id, request_id, is_hd, image_quality,
  getter_key, getter_default, get_field, setter_key, set_field, get_int, get_cam_sid, set_cam_sid,
}

abbrev all_fields : List Field
all_fields =
    cam_id ∷ cht_barcode ∷ tenant_id ∷ public_ip ∷ osd_rule ∷ wifi_ssid ∷ firmware_version
    ∷ camera_status ∷ storage_health ∷ active_status ∷ device_status ∷ ai_settings ∷ mac_address
    ∷ time_zone ∷ net_no ∷ vs_domain ∷ vs_token ∷ camera_type ∷ model ∷ brand ∷ user_id ∷ request_id
    ∷ is_hd ∷ image_quality ∷ []

-- The first field of the list that is read under a key.
field_of : Bytes → List Field → Option Field
field_of k [] = none
field_of k (f ∷ fs) =
    let rest = field_of k fs in if same_text (getter_key f) k then some f else rest

-- No two fields are read under one key.
field_of-getter_key : (f : Field) → field_of (getter_key f) all_fields ≡ some f
unfolding field_of getter_key same_text
field_of-getter_key cam_id = refl
field_of-getter_key cht_barcode = refl
field_of-getter_key tenant_id = refl
field_of-getter_key public_ip = refl
field_of-getter_key osd_rule = refl
field_of-getter_key wifi_ssid = refl
field_of-getter_key firmware_version = refl
field_of-getter_key camera_status = refl
field_of-getter_key storage_health = refl
field_of-getter_key active_status = refl
field_of-getter_key device_status = refl
field_of-getter_key ai_settings = refl
field_of-getter_key mac_address = refl
field_of-getter_key time_zone = refl
field_of-getter_key net_no = refl
field_of-getter_key vs_domain = refl
field_of-getter_key vs_token = refl
field_of-getter_key camera_type = refl
field_of-getter_key model = refl
field_of-getter_key brand = refl
field_of-getter_key user_id = refl
field_of-getter_key request_id = refl
field_of-getter_key is_hd = refl
field_of-getter_key image_quality = refl

some-injective : (f g : Field) → Path (Option Field) (some f) (some g) → f ≡ g
some-injective f g e = ground arith

getter_key-injective : (f g : Field) → getter_key f ≡ getter_key g → f ≡ g
getter_key-injective f g e =
    some-injective f g
      (sym (field_of-getter_key f) ∙ ap (λ k. field_of k all_fields) e ∙ field_of-getter_key g)

setter_key_same : (f : Field) (k : Bytes) → setter_key f ≡ some k → k ≡ getter_key f
unfolding setter_key getter_key
setter_key_same cam_id k e = ground arith
setter_key_same cht_barcode k e = ground arith
setter_key_same tenant_id k e = ground arith
setter_key_same public_ip k e = ground arith
setter_key_same osd_rule k e = ground arith
setter_key_same wifi_ssid k e = absurd (ground arith)
setter_key_same firmware_version k e = absurd (ground arith)
setter_key_same camera_status k e = absurd (ground arith)
setter_key_same storage_health k e = absurd (ground arith)
setter_key_same active_status k e = ground arith
setter_key_same device_status k e = ground arith
setter_key_same ai_settings k e = ground arith
setter_key_same mac_address k e = absurd (ground arith)
setter_key_same time_zone k e = ground arith
setter_key_same net_no k e = ground arith
setter_key_same vs_domain k e = ground arith
setter_key_same vs_token k e = ground arith
setter_key_same camera_type k e = ground arith
setter_key_same model k e = ground arith
setter_key_same brand k e = ground arith
setter_key_same user_id k e = ground arith
setter_key_same request_id k e = ground arith
setter_key_same is_hd k e = ground arith
setter_key_same image_quality k e = ground arith

-- Of the 24 fields of `Field`, a setter writes one: the field's own getter reads the text that was
-- set, and the getter of every other of these fields reads what it read before. (Beyond them,
-- getImageQualityStr shares its key with the image quality.)
pub get_field-set_field :
    (f g : Field) (now : ℕ) (v : Bytes) (s : Store) (t : Step)
    → set_field g now v s ≡ some t
    → ((f ≡ g) × (get_field f t.0 ≡ v)) ⊎ ((f ≢ g) × (get_field f t.0 ≡ get_field f s))
unfolding set_field get_field
get_field-set_field f g now v s t e = elim (Option-cases (setter_key g)) [
  | inl h ↦ absurd (grind (arith, h, e))
  | inr (k, h) ↦
      let same : k ≡ getter_key g = setter_key_same g k h in
      let step : set_parameter now k v s ≡ t = grind (arith, h, e) in
      let reads =
        sym (ap (λ (r : Step). get_parameter (getter_key f) (getter_default f) r.0) step)
        ∙ get_parameter-set_parameter now k v s (getter_key f) (getter_default f) in
      elim (Bool-cases (same_text k (getter_key f))) [
        | inl b ↦ inl (
          sym (getter_key-injective g f (sym same ∙ (same_text_iff k (getter_key f)).0 b)),
          reads ∙ ap (λ c. if c then v else get_parameter (getter_key f) (getter_default f) s) b,
        )
        | inr b ↦ inr (
          λ q.
              let t' = (same_text_iff k (getter_key f)).1 (same ∙ ap getter_key (sym q)) in
              ground (arith, b, t'),
          reads ∙ ap (λ c. if c then v else get_parameter (getter_key f) (getter_default f) s) b,
        )
      ]
]

-- An `int` that is set as the camera's sid is read back, whatever its sign.
get_cam_sid-set_cam_sid :
    (now : ℕ) (i : ℤ) (s : Store) → is_int i ≡ true → get_cam_sid (set_cam_sid now i s).0 ≡ i
unfolding get_cam_sid set_cam_sid get_int write
get_cam_sid-set_cam_sid now i s h = grind (
  arith,
  set_parameter_writes now (codes "camSid") (print_int i) s,
  lookup-insert (codes "camSid") (codes "camSid") (print_int i) (Store.parameters s),
  same_text_refl (codes "camSid"),
  parse_int-print_int i h,
)
