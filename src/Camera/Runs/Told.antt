-- ===== src/Camera/Runs/Told.antt =====
-- Who is told of the changes of a run.
use ipc_with_cht.Prelude.{
  true, is_empty, ℕ, ◌<◌, ◌≡◌, ◌≢◌, refl, ap, sym, Bool, false, Option, none, some, List, [], ◌∷◌,
  ◌++◌, arith, Bool-cases, inl, inr, subst, Option-cases, ◌⊎◌, if-both, leb, ltb, ◌-◌, ◌^◌, length,
  if◌then◌else◌,
}
use ipc_with_cht.Prelude.Bytes.{Bytes}
use ipc_with_cht.Prelude.Text.{codes}
use ipc_with_cht.Camera.Store.{
  Callback, IdentificationFeature, Store, Notice, Step, set_parameter, set_ntp_server,
  remove_parameter, register_callback, with_callback, with_callbacks, unregister_callback,
  erase_callback, notified, notify_parameter_changed, write, wants,
}
use ipc_with_cht.Camera.Features.{
  with_features, add_feature, remove_feature, update_feature, announce, has_id, max_features,
  erase_feature, replace_feature,
}
use ipc_with_cht.Camera.Runs.Ids.{Lacks, Lacks-append, Lacks-erase}
use ipc_with_cht.Camera.Json.{Json}
use ipc_with_cht.Camera.Faces.{
  Writing, Batch, Outcome, install, nothing_taken, failed, features_array, take_elements,
  update_features,
}
use ipc_with_cht.Camera.Runs.{
  take_mac, Call, set, set_ntp, remove, register, unregister, add_face, remove_face, update_face,
  update_faces, name_camera, call, run,
}

-- None of the calls is to this callback.
abbrev pub NotTold : ℕ → List Notice → Type 0
NotTold i [] = Unit
NotTold i (n ∷ ns) = (Notice.to n ≢ i) × NotTold i ns

NotTold-append : (i : ℕ) (ns ms : List Notice) → NotTold i ns → NotTold i ms → NotTold i (ns ++ ms)
NotTold-append i [] ms h g = g
NotTold-append i (n ∷ ns) ms (h, hs) g = (h, NotTold-append i ns ms hs g)

pub NotTold-notified :
    (i : ℕ) (k v : Bytes) (cs : List Callback) → Lacks i cs → NotTold i (notified k v cs)
unfolding notified
NotTold-notified i k v [] l = tt
NotTold-notified i k v (c ∷ cs) (n, l) =
    let rest = NotTold-notified i k v cs l in
    if-both (NotTold i) (wants k c)
      (record { to = Callback.id c; key = k; value = v } ∷ notified k v cs) (notified k v cs)
      (n, rest) rest

-- A step that leaves the callbacks alone and tells nobody, or those of one change.
abbrev pub Tells : Store → Step → Type 0
Tells s t =
    (Store.callbacks t.0 ≡ Store.callbacks s)
    × ((Store.next_id t.0 ≡ Store.next_id s)
        × ((t.1 ≡ []) ⊎ ((k : Bytes) × ((v : Bytes) × (t.1 ≡ notified k v (Store.callbacks s))))))

pub set_parameter-Tells : (now : ℕ) (k v : Bytes) (s : Store) → Tells s (set_parameter now k v s)
unfolding set_parameter notify_parameter_changed write
set_parameter-Tells now k v s =
    if-both (Tells s) _ _ _ (refl, (refl, inr (k, (v, refl)))) (refl, (refl, inl refl))

pub set_ntp_server-Tells : (now : ℕ) (v : Bytes) (s : Store) → Tells s (set_ntp_server now v s)
unfolding set_ntp_server notify_parameter_changed write
set_ntp_server-Tells now v s = (refl, (refl, inr (_, (v, refl))))

pub remove_parameter-Tells : (k : Bytes) (s : Store) → Tells s ((remove_parameter k s).1, [])
unfolding remove_parameter
remove_parameter-Tells k s =
    if-both (λ (r : Bool × Store). Tells s (r.1, [])) _ _ _ (refl, (refl, inl refl))
      (refl, (refl, inl refl))

announce-Tells :
    (what i : Bytes) (fs : List IdentificationFeature) (s : Store)
    → Tells s (announce what i fs s).1
unfolding announce notify_parameter_changed
announce-Tells what i fs s = (refl, (refl, inr (_, (_, refl))))

pub add_feature-Tells : (f : IdentificationFeature) (s : Store) → Tells s (add_feature f s).1
unfolding add_feature
add_feature-Tells f s =
    if-both (λ (r : Bool × Step). Tells s r.1)
      (has_id (IdentificationFeature.id f) (Store.features s)) (false, (s, []))
      (if leb max_features (length (Store.features s))
        then (false, (s, []))
        else announce (codes "added:") (IdentificationFeature.id f) (Store.features s ++ f ∷ []) s)
      (refl, (refl, inl refl))
      (if-both (λ (r : Bool × Step). Tells s r.1) (leb max_features (length (Store.features s)))
        (false, (s, []))
        (announce (codes "added:") (IdentificationFeature.id f) (Store.features s ++ f ∷ []) s)
        (refl, (refl, inl refl))
        (announce-Tells (codes "added:") (IdentificationFeature.id f) (Store.features s ++ f ∷ [])
          s))

pub remove_feature-Tells : (i : Bytes) (s : Store) → Tells s (remove_feature i s).1
unfolding remove_feature
remove_feature-Tells i s =
    elim (erase_feature i (Store.features s))
      as (λ o.
        let r : Bool × Step = elim o [
          | none ↦ (false, (s, []))
          | some fs ↦ announce (codes "removed:") i fs s
        ] in
        Tells s r.1) [
          | none ↦ (refl, (refl, inl refl))
          | some fs ↦ announce-Tells (codes "removed:") i fs s
        ]

pub update_feature-Tells :
    (i : Bytes) (f : IdentificationFeature) (s : Store) → Tells s (update_feature i f s).1
unfolding update_feature
update_feature-Tells i f s =
    elim (replace_feature i f (Store.features s))
      as (λ o.
        let r : Bool × Step = elim o [
          | none ↦ (false, (s, []))
          | some fs ↦ announce (codes "updated:") i fs s
        ] in
        Tells s r.1) [
          | none ↦ (refl, (refl, inl refl))
          | some fs ↦ announce-Tells (codes "updated:") i fs s
        ]

-- A JSON update of the faces changes the table at most.
pub update_features_store :
    (parse : Bytes → Option Json) (disk : Bytes → Writing) (t : Bytes) (s : Store)
    → (fs : List IdentificationFeature) × (Outcome.store (update_features parse disk t s)
        ≡ with_features fs s)
unfolding update_features install
update_features_store parse disk t s =
    elim (features_array (parse t))
      as (λ o.
        let r : Outcome = elim o [
          | none ↦ failed s
          | some es ↦ install (take_elements disk es (record { taken = []; files = [] })) s
        ] in
        (fs : List IdentificationFeature) × (Outcome.store r ≡ with_features fs s)) [
          | none ↦ (Store.features s, refl)
          | some es ↦
              let b = take_elements disk es (record { taken = []; files = [] }) in
              if-both
                (λ (r : Outcome).
                  (fs : List IdentificationFeature) × (Outcome.store r ≡ with_features fs s))
                (is_empty (Batch.taken b)) (nothing_taken s)
                record {
                  ok = true;
                  store = with_features (Batch.taken b) s;
                  folder = some (Batch.files b);
                }
                (Store.features s, refl) (Batch.taken b, refl)
        ]

pub update_faces-Tells :
    (parse : Bytes → Option Json) (disk : Bytes → Writing) (t : Bytes) (s : Store)
    → Tells s (Outcome.store (update_features parse disk t s), [])
update_faces-Tells parse disk t s =
    let (fs, e) = update_features_store parse disk t s in
    subst (λ u. Tells s (u, [])) (sym e) (refl, (refl, inl refl))

pub take_mac-Tells : (mac : Option Bytes) (s : Store) → Tells s (take_mac mac s, [])
unfolding take_mac
take_mac-Tells none s = (refl, (refl, inl refl))
take_mac-Tells (some m) s = (refl, (refl, inl refl))

-- The id was handed out, and no callback has it any more.
abbrev pub Retired : ℕ → Store → Type 0
Retired i s = (i < Store.next_id s) × Lacks i (Store.callbacks s)

-- What a step keeps of a retired callback.
abbrev pub Silent : ℕ → Step → Type 0
Silent i t = Retired i t.0 × NotTold i t.1

Tells-Silent : (i : ℕ) (s : Store) (t : Step) → Tells s t → Retired i s → Silent i t
Tells-Silent i s t (c, (n, told)) (l, lacks) = (
  (subst (λ m. i < m) (sym n) l, subst (Lacks i) (sym c) lacks),
  elim told [
    | inl e ↦ subst (NotTold i) (sym e) tt
    | inr (k, (v, e)) ↦ subst (NotTold i) (sym e) (NotTold-notified i k v (Store.callbacks s) lacks)
  ],
)

pub call-register :
    (k : Bytes) (s : Store)
    → (call (register k) s ≡ (s, [])) ⊎ (call (register k) s ≡ (with_callback k s, []))
unfolding call register_callback
call-register k s = elim (Bool-cases (ltb (Store.next_id s) (2 ^ 31 - 1))) [
  | inl h ↦ inr (
      ap
        (λ b.
          let r : Option (ℕ × Store) =
            if b then some (Store.next_id s, with_callback k s) else none in
          let t : Step = elim r [ none ↦ (s, []) | some r' ↦ (r'.1, []) ] in t)
        h)
  | inr h ↦ inl (
      ap
        (λ b.
          let r : Option (ℕ × Store) =
            if b then some (Store.next_id s, with_callback k s) else none in
          let t : Step = elim r [ none ↦ (s, []) | some r' ↦ (r'.1, []) ] in t)
        h)
]

register-Silent : (i : ℕ) (k : Bytes) (s : Store) → Retired i s → Silent i (call (register k) s)
register-Silent i k s (l, lacks) = elim (call-register k s) [
  | inl e ↦ subst (Silent i) (sym e) ((l, lacks), tt)
  | inr e ↦ subst (Silent i) (sym e) (
    (
      omega arith,
      Lacks-append i (Store.callbacks s) (record { id = Store.next_id s; key = k } ∷ []) lacks
          (λ q. omega (arith, q), tt),
    ),
    tt,
  )
]

pub unregister_callback-left :
    (j : ℕ) (s : Store) (o : Option (List Callback))
    → erase_callback j (Store.callbacks s) ≡ o
    → (unregister_callback j s).1 ≡ (elim o [ none ↦ s | some cs ↦ with_callbacks cs s ])
unfolding unregister_callback
unregister_callback-left j s none e = ground arith
unregister_callback-left j s (some cs) e = ground arith

unregister-Retired : (i j : ℕ) (s : Store) → Retired i s → Retired i (unregister_callback j s).1
unregister-Retired i j s (l, lacks) = elim (Option-cases (erase_callback j (Store.callbacks s))) [
  | inl e ↦ subst (Retired i) (sym (unregister_callback-left j s none e)) (l, lacks)
  | inr (cs, e) ↦
      subst (Retired i) (sym (unregister_callback-left j s (some cs) e))
        (l, Lacks-erase i j (Store.callbacks s) cs e lacks)
]

-- Nothing that the manager is asked to do calls a retired callback, or brings it back.
call-Silent : (i : ℕ) (c : Call) (s : Store) → Retired i s → Silent i (call c s)
unfolding call
call-Silent i (set now k v) s h =
    Tells-Silent i s (set_parameter now k v s) (set_parameter-Tells now k v s) h
call-Silent i (set_ntp now v) s h =
    Tells-Silent i s (set_ntp_server now v s) (set_ntp_server-Tells now v s) h
call-Silent i (remove k) s h =
    Tells-Silent i s ((remove_parameter k s).1, []) (remove_parameter-Tells k s) h
call-Silent i (register k) s h = register-Silent i k s h
call-Silent i (unregister j) s h = (unregister-Retired i j s h, tt)
call-Silent i (add_face f) s h = Tells-Silent i s ((add_feature f s).1) (add_feature-Tells f s) h
call-Silent i (remove_face j) s h =
    Tells-Silent i s ((remove_feature j s).1) (remove_feature-Tells j s) h
call-Silent i (update_face j f) s h =
    Tells-Silent i s ((update_feature j f s).1) (update_feature-Tells j f s) h
call-Silent i (update_faces parse disk t) s h =
    Tells-Silent i s (Outcome.store (update_features parse disk t s), [])
      (update_faces-Tells parse disk t s) h
call-Silent i (name_camera mac) s h = Tells-Silent i s (take_mac mac s, []) (take_mac-Tells mac s) h

pub run-Silent : (i : ℕ) (cs : List Call) (s : Store) → Retired i s → Silent i (run cs s)
unfolding run
run-Silent i [] s h = (h, tt)
run-Silent i (c ∷ cs) s h =
    let (h', n) = call-Silent i c s h in
    let (h'', m) = run-Silent i cs (call c s).0 h' in
    (h'', NotTold-append i (call c s).1 (run cs (call c s).0).1 n m)
