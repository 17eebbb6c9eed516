-- ===== src/Camera/Runs/Registration.antt =====
-- Callbacks from their registration to their end.
use ipc_with_cht.Prelude.{
  ℕ, ◌<◌, sym, none, some, List, [], ◌∷◌, arith, inl, inr, subst, Option-cases,
}
use ipc_with_cht.Prelude.Bytes.{Bytes}
use ipc_with_cht.Camera.Store.{
  Store, Step, new, set_parameter, set_ntp_server, remove_parameter, unregister_callback,
  erase_callback,
}
use ipc_with_cht.Camera.Features.{add_feature, remove_feature, update_feature}
use ipc_with_cht.Camera.Faces.{Outcome, update_features}
use ipc_with_cht.Camera.Runs.{
  take_mac, Call, set, set_ntp, remove, register, unregister, add_face, remove_face, update_face,
  update_faces, name_camera, call, run,
}
use ipc_with_cht.Camera.Runs.Ids.{
  Rises, Registered, Rises-append, Rises-erase, Lacks-erase_self, Lacks-erase_none,
}
use ipc_with_cht.Camera.Runs.Told.{
  Tells, Retired, NotTold, set_parameter-Tells, set_ntp_server-Tells, remove_parameter-Tells,
  add_feature-Tells, remove_feature-Tells, update_feature-Tells, update_faces-Tells, take_mac-Tells,
  call-register, unregister_callback-left, run-Silent,
}

pub Tells-Registered : (s : Store) (t : Step) → Tells s t → Registered s → Registered t.0
unfolding Registered
Tells-Registered s t (c, (n, told)) r =
    subst (λ cs. Rises 1 cs (Store.next_id t.0)) (sym c)
      (subst (Rises 1 (Store.callbacks s)) (sym n) r)

register-Registered : (k : Bytes) (s : Store) → Registered s → Registered (call (register k) s).0
unfolding Registered
register-Registered k s r = elim (call-register k s) [
  | inl e ↦ subst (λ (t : Step). Registered t.0) (sym e) r
  | inr e ↦
      subst (λ (t : Step). Registered t.0) (sym e)
        (Rises-append 1 (Store.callbacks s) (Store.next_id s) k r)
]

unregister-Registered : (i : ℕ) (s : Store) → Registered s → Registered (unregister_callback i s).1
unfolding Registered
unregister-Registered i s r = elim (Option-cases (erase_callback i (Store.callbacks s))) [
  | inl e ↦ subst Registered (sym (unregister_callback-left i s none e)) r
  | inr (cs, e) ↦
      subst Registered (sym (unregister_callback-left i s (some cs) e))
        (Rises-erase 1 i (Store.callbacks s) cs (Store.next_id s) e r)
]

call-Registered : (c : Call) (s : Store) → Registered s → Registered (call c s).0
unfolding call
call-Registered (set now k v) s r =
    Tells-Registered s (set_parameter now k v s) (set_parameter-Tells now k v s) r
call-Registered (set_ntp now v) s r =
    Tells-Registered s (set_ntp_server now v s) (set_ntp_server-Tells now v s) r
call-Registered (remove k) s r =
    Tells-Registered s ((remove_parameter k s).1, []) (remove_parameter-Tells k s) r
call-Registered (register k) s r = register-Registered k s r
call-Registered (unregister i) s r = unregister-Registered i s r
call-Registered (add_face f) s r = Tells-Registered s (add_feature f s).1 (add_feature-Tells f s) r
call-Registered (remove_face i) s r =
    Tells-Registered s (remove_feature i s).1 (remove_feature-Tells i s) r
call-Registered (update_face i f) s r =
    Tells-Registered s (update_feature i f s).1 (update_feature-Tells i f s) r
call-Registered (update_faces parse disk t) s r =
    Tells-Registered s (Outcome.store (update_features parse disk t s), [])
      (update_faces-Tells parse disk t s) r
call-Registered (name_camera mac) s r =
    Tells-Registered s (take_mac mac s, []) (take_mac-Tells mac s) r

run-Registered : (cs : List Call) (s : Store) → Registered s → Registered (run cs s).0
unfolding run
run-Registered [] s r = r
run-Registered (c ∷ cs) s r = run-Registered cs (call c s).0 (call-Registered c s r)

-- After any calls of `Call` on a new manager, the ids of the callbacks rise in the order of
-- registration, from 1 on and below the next id to be given: no two callbacks share one.
pub reached-Registered : (cs : List Call) → Registered (run cs new).0
unfolding Registered new
reached-Registered cs = run-Registered cs new (omega arith)

unregister-ends :
    (i : ℕ) (s : Store) → Registered s → i < Store.next_id s → Retired i (unregister_callback i s).1
unfolding Registered
unregister-ends i s r l = elim (Option-cases (erase_callback i (Store.callbacks s))) [
  | inl e ↦
      subst (Retired i) (sym (unregister_callback-left i s none e))
        (l, Lacks-erase_none i (Store.callbacks s) e)
  | inr (cs, e) ↦
      subst (Retired i) (sym (unregister_callback-left i s (some cs) e))
        (l, Lacks-erase_self 1 i (Store.callbacks s) cs (Store.next_id s) e r)
]

-- A callback whose id was given out by a new manager behind any calls of `Call`, and that was then
-- unregistered, is not called in any later run of calls of `Call`: setting, removing, registering,
-- unregistering, the changes of single faces, the JSON update of the faces and the naming of the
-- camera.
pub unregistered_silent :
    (before after : List Call) (i : ℕ)
    → i < Store.next_id (run before new).0
    → NotTold i (run after (call (unregister i) (run before new).0).0).1
unfolding call
unregistered_silent before after i l =
    let s = (run before new).0 in
    (run-Silent i after (unregister_callback i s).1
      (unregister-ends i s (reached-Registered before) l)).1
