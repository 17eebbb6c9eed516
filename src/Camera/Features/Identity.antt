-- ===== src/Camera/Features/Identity.antt =====
-- No two faces of the manager share an id, as long as an update
-- keeps the id of the face and no table is taken over.
use ipc_with_cht.Prelude.{
  none, some, ◌≡◌, Bool, true, false, List, [], ◌∷◌, arith, inl, inr, subst, Option-cases,
  Bool-cases, leb, length, if◌then◌else◌,
}
use ipc_with_cht.Prelude.Bytes.{Bytes, same_text, same_text_iff}
use ipc_with_cht.Camera.Store.{
  IdentificationFeature, Store, new, set_parameter, set_ntp_server, remove_parameter,
  register_callback, unregister_callback, write,
}
use ipc_with_cht.Camera.Features.{
  has_id, max_features, announce, add_feature, erase_feature, remove_feature, replace_feature,
  update_feature,
}
use ipc_with_cht.Camera.Features.Limits.{
  Distinct, Distinct-append, Distinct-erase_feature, Distinct-replace_feature,
}
use ipc_with_cht.Camera.Runs.{
  take_mac, Call, set, set_ntp, remove, register, unregister, add_face, remove_face, update_face,
  update_faces, name_camera, call, run,
}

-- Every update of the calls keeps the id of the face that it is for, and none takes over a table.
unfoldable pub keeps_ids : List Call → Bool
keeps_ids [] = true
keeps_ids (update_face i f ∷ cs) =
    let rest = keeps_ids cs in if same_text (IdentificationFeature.id f) i then rest else false
keeps_ids (update_faces parse disk t ∷ cs) = false
keeps_ids (c ∷ cs) = keeps_ids cs

add_feature-Distinct :
    (f : IdentificationFeature) (s : Store)
    → Distinct (Store.features s)
    → Distinct (Store.features (add_feature f s).1.0)
unfolding add_feature announce
add_feature-Distinct f s d =
    elim (Bool-cases (has_id (IdentificationFeature.id f) (Store.features s))) [
      | inl h ↦ subst Distinct (ground arith) d
      | inr h ↦ elim (Bool-cases (leb max_features (length (Store.features s)))) [
        | inl l ↦ subst Distinct (ground arith) d
        | inr l ↦ subst Distinct (ground arith) (Distinct-append (Store.features s) f d h)
      ]
    ]

remove_feature-Distinct :
    (i : Bytes) (s : Store)
    → Distinct (Store.features s)
    → Distinct (Store.features (remove_feature i s).1.0)
unfolding remove_feature announce
remove_feature-Distinct i s d = elim (Option-cases (erase_feature i (Store.features s))) [
  | inl h ↦ subst Distinct (ground arith) d
  | inr (fs, h) ↦ subst Distinct (ground arith) (Distinct-erase_feature i (Store.features s) fs h d)
]

update_feature-Distinct :
    (i : Bytes) (f : IdentificationFeature) (s : Store)
    → IdentificationFeature.id f ≡ i
    → Distinct (Store.features s)
    → Distinct (Store.features (update_feature i f s).1.0)
unfolding update_feature announce
update_feature-Distinct i f s e d = elim (Option-cases (replace_feature i f (Store.features s))) [
  | inl h ↦ subst Distinct (ground arith) d
  | inr (fs, h) ↦
      subst Distinct (ground arith) (Distinct-replace_feature i f (Store.features s) fs h e d)
]

run-Distinct :
    (cs : List Call) (s : Store)
    → keeps_ids cs ≡ true
    → Distinct (Store.features s)
    → Distinct (Store.features (run cs s).0)
unfolding run call keeps_ids set_parameter set_ntp_server remove_parameter register_callback
    unregister_callback write take_mac
run-Distinct [] s k d = d
run-Distinct (set now key v ∷ cs) s k d =
    run-Distinct cs (set_parameter now key v s).0 k (subst Distinct (ground arith) d)
run-Distinct (set_ntp now v ∷ cs) s k d = run-Distinct cs (set_ntp_server now v s).0 k d
run-Distinct (remove key ∷ cs) s k d =
    run-Distinct cs (remove_parameter key s).1 k (subst Distinct (ground arith) d)
run-Distinct (register key ∷ cs) s k d =
    run-Distinct cs (call (register key) s).0 k (subst Distinct (ground arith) d)
run-Distinct (unregister i ∷ cs) s k d =
    run-Distinct cs (unregister_callback i s).1 k (subst Distinct (ground arith) d)
run-Distinct (add_face f ∷ cs) s k d =
    run-Distinct cs (add_feature f s).1.0 k (add_feature-Distinct f s d)
run-Distinct (remove_face i ∷ cs) s k d =
    run-Distinct cs (remove_feature i s).1.0 k (remove_feature-Distinct i s d)
run-Distinct (update_face i f ∷ cs) s k d =
    run-Distinct cs (update_feature i f s).1.0 (ground (arith, k)) (
      update_feature-Distinct i f s
        (ground (arith, k, same_text_iff (IdentificationFeature.id f) i)) d)
run-Distinct (update_faces parse disk t ∷ cs) s k d = absurd (ground arith)
run-Distinct (name_camera none ∷ cs) s k d = run-Distinct cs s k d
run-Distinct (name_camera (some mac) ∷ cs) s k d = run-Distinct cs (take_mac (some mac) s) k d

-- After calls of `Call` on a new manager, of which every update of a single face keeps its id and
-- none is the JSON update, which takes over a whole table: no two faces share an id.
pub reached-Distinct :
    (cs : List Call) → keeps_ids cs ≡ true → Distinct (Store.features (run cs new).0)
unfolding new
reached-Distinct cs k = run-Distinct cs new k tt
