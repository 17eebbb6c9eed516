-- ===== src/Camera/Runs/Keys.antt =====
-- The two maps of the manager.
use ipc_with_cht.Prelude.{
  false, ℕ, ◌≡◌, ◌≢◌, Option, none, some, refl, sym, ap, ◌∙◌, List, [], ◌∷◌, arith, subst,
}
use ipc_with_cht.Prelude.Bytes.{Bytes, same_text, same_text_iff, same_text_ne}
use ipc_with_cht.Prelude.Text.{codes}
use ipc_with_cht.Prelude.Dict.{lookup, lookup-erase_self, lookup-erase_ne}
use ipc_with_cht.Camera.Store.{
  IdentificationFeature, Store, new, is_some, write, set_ntp_server, remove_parameter,
  register_callback, unregister_callback,
}
use ipc_with_cht.Camera.Store.Values.{lookup-insert, set_parameter_writes}
use ipc_with_cht.Camera.Features.{
  with_features, add_feature, remove_feature, update_feature, announce,
}
use ipc_with_cht.Camera.Runs.Told.{update_features_store}
use ipc_with_cht.Camera.Runs.{
  take_mac, Call, set, set_ntp, remove, register, unregister, add_face, remove_face, update_face,
  update_faces, name_camera, call, run,
}

-- The same parameters have a value and a time, but for the address of the camera.
unfoldable Dated : Store → Type 0
Dated s =
    (j : Bytes)
    → same_text (codes "macAddress") j ≡ false
    → is_some (lookup j (Store.parameters s)) ≡ is_some (lookup j (Store.times s))

-- A step that keeps both maps.
abbrev Keeps : Store → Store → Type 0
Keeps s t = (Store.parameters t ≡ Store.parameters s) × (Store.times t ≡ Store.times s)

Keeps-Dated : (s t : Store) → Keeps s t → Dated s → Dated t
unfolding Dated
Keeps-Dated s t (p, q) d j a =
    ap (λ m. is_some (lookup j m)) p ∙ d j a ∙ ap (λ m. is_some (lookup j m)) (sym q)

write-Dated : (now : ℕ) (k v : Bytes) (s : Store) → Dated s → Dated (write now k v s)
unfolding Dated write
write-Dated now k v s d j a =
    let at_j = d j a in
    ground
      (arith, lookup-insert k j v (Store.parameters s), lookup-insert k j now (Store.times s), at_j)

remove_parameter-Dated : (k : Bytes) (s : Store) → Dated s → Dated (remove_parameter k s).1
unfolding Dated remove_parameter
remove_parameter-Dated k s d j a =
    let at_j = d j a in
    ground (
      arith,
      lookup-erase_self k (Store.parameters s),
      lookup-erase_self k (Store.times s),
      lookup-erase_ne j k (Store.parameters s),
      lookup-erase_ne j k (Store.times s),
      same_text_iff k j,
      at_j,
    )

register-Keeps : (k : Bytes) (s : Store) → Keeps s (call (register k) s).0
unfolding call register_callback
register-Keeps k s = (ground arith, ground arith)

unregister-Keeps : (i : ℕ) (s : Store) → Keeps s (unregister_callback i s).1
unfolding unregister_callback
unregister-Keeps i s = (ground arith, ground arith)

add_feature-Keeps : (f : IdentificationFeature) (s : Store) → Keeps s (add_feature f s).1.0
unfolding add_feature announce
add_feature-Keeps f s = (ground arith, ground arith)

remove_feature-Keeps : (i : Bytes) (s : Store) → Keeps s (remove_feature i s).1.0
unfolding remove_feature announce
remove_feature-Keeps i s = (ground arith, ground arith)

update_feature-Keeps :
    (i : Bytes) (f : IdentificationFeature) (s : Store) → Keeps s (update_feature i f s).1.0
unfolding update_feature announce
update_feature-Keeps i f s = (ground arith, ground arith)

take_mac-Dated : (mac : Option Bytes) (s : Store) → Dated s → Dated (take_mac mac s)
unfolding Dated take_mac
take_mac-Dated none s d j a = d j a
take_mac-Dated (some mac) s d j a =
    let at_j = d j a in
    ground (arith, lookup-insert (codes "macAddress") j mac (Store.parameters s), a, at_j)

call-Dated : (c : Call) (s : Store) → Dated s → Dated (call c s).0
unfolding call set_ntp_server
call-Dated (set now k v) s d =
    subst Dated (sym (set_parameter_writes now k v s)) (write-Dated now k v s d)
call-Dated (set_ntp now v) s d = write-Dated now _ v s d
call-Dated (remove k) s d = remove_parameter-Dated k s d
call-Dated (register k) s d = Keeps-Dated s (call (register k) s).0 (register-Keeps k s) d
call-Dated (unregister i) s d = Keeps-Dated s (unregister_callback i s).1 (unregister-Keeps i s) d
call-Dated (add_face f) s d = Keeps-Dated s (add_feature f s).1.0 (add_feature-Keeps f s) d
call-Dated (remove_face i) s d = Keeps-Dated s (remove_feature i s).1.0 (remove_feature-Keeps i s) d
call-Dated (update_face i f) s d =
    Keeps-Dated s (update_feature i f s).1.0 (update_feature-Keeps i f s) d
call-Dated (update_faces parse disk t) s d =
    let (fs, e) = update_features_store parse disk t s in
    subst Dated (sym e) (Keeps-Dated s (with_features fs s) (refl, refl) d)
call-Dated (name_camera mac) s d = take_mac-Dated mac s d

run-Dated : (cs : List Call) (s : Store) → Dated s → Dated (run cs s).0
unfolding run
run-Dated [] s d = d
run-Dated (c ∷ cs) s d = run-Dated cs (call c s).0 (call-Dated c s d)

-- After any calls of `Call` on a new manager, a parameter has a time of update exactly when it has a
-- value, unless it is the address of the camera, which naming the camera writes without a time.
pub reached-Dated :
    (cs : List Call) (j : Bytes)
    → j ≢ codes "macAddress"
    → is_some (lookup j (Store.parameters (run cs new).0))
      ≡ is_some (lookup j (Store.times (run cs new).0))
unfolding Dated new lookup
reached-Dated cs j h =
    run-Dated cs new (λ k a. refl) j (same_text_ne (codes "macAddress") j (λ e. h (sym e)))
