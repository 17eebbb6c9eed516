-- ===== src/Camera/Features/Limits.antt =====
-- How many faces the manager keeps, and their ids.
use ipc_with_cht.Prelude.{
  Bool, none, some, suc, ◌≤◌, ◌≡◌, refl, sym, ◌∙◌, true, false, some, List, [], ◌∷◌, ◌++◌, arith,
  inl, inr, subst, Option-cases, Bool-cases, length, length-append, if◌then◌else◌,
}
use ipc_with_cht.Prelude.Bytes.{Bytes, same_text, same_text_iff}
use ipc_with_cht.Camera.Store.{
  IdentificationFeature, Store, new, set_parameter, set_ntp_server, remove_parameter,
  register_callback, unregister_callback, write,
}
use ipc_with_cht.Camera.Features.{
  has_id, max_features, announce, add_feature, erase_feature, remove_feature, replace_feature,
  update_feature,
}
use ipc_with_cht.Camera.Runs.{
  take_mac, Call, set, set_ntp, remove, register, unregister, add_face, remove_face, update_face,
  update_faces, name_camera, call, run,
}

-- At most twenty.
abbrev pub Fits : Store → Type 0
Fits s = length (Store.features s) ≤ max_features

length-erase_feature :
    (i : Bytes) (fs gs : List IdentificationFeature)
    → erase_feature i fs ≡ some gs
    → suc (length gs) ≡ length fs
unfolding erase_feature
length-erase_feature i [] gs h = absurd (ground arith)
length-erase_feature i (f ∷ fs) gs h = grind (arith, length-erase_feature i fs)

length-replace_feature :
    (i : Bytes) (g : IdentificationFeature) (fs gs : List IdentificationFeature)
    → replace_feature i g fs ≡ some gs
    → length gs ≡ length fs
unfolding replace_feature
length-replace_feature i g [] gs h = absurd (ground arith)
length-replace_feature i g (f ∷ fs) gs h = grind (arith, length-replace_feature i g fs)

add_feature-Fits : (f : IdentificationFeature) (s : Store) → Fits s → Fits (add_feature f s).1.0
unfolding add_feature announce
add_feature-Fits f s h = ground (arith, length-append (Store.features s) (f ∷ []))

remove_feature-Fits : (i : Bytes) (s : Store) → Fits s → Fits (remove_feature i s).1.0
unfolding remove_feature announce
remove_feature-Fits i s h = grind (arith, length-erase_feature i (Store.features s))

update_feature-Fits :
    (i : Bytes) (f : IdentificationFeature) (s : Store) → Fits s → Fits (update_feature i f s).1.0
unfolding update_feature announce
update_feature-Fits i f s h = grind (arith, length-replace_feature i f (Store.features s))

-- A call other than the JSON update of the faces, which takes over a table of any length.
abbrev pub one_by_one : Call → Bool
one_by_one (update_faces parse disk t) = false
one_by_one c = true

abbrev pub all_one_by_one : List Call → Bool
all_one_by_one [] = true
all_one_by_one (c ∷ cs) = if one_by_one c then all_one_by_one cs else false

call-Fits : (c : Call) (s : Store) → one_by_one c ≡ true → Fits s → Fits (call c s).0
unfolding call take_mac set_parameter set_ntp_server remove_parameter register_callback
    unregister_callback write
call-Fits (set now k v) s o h = ground (arith, h)
call-Fits (set_ntp now v) s o h = h
call-Fits (remove k) s o h = ground (arith, h)
call-Fits (register k) s o h = ground (arith, h)
call-Fits (unregister i) s o h = ground (arith, h)
call-Fits (add_face f) s o h = add_feature-Fits f s h
call-Fits (remove_face i) s o h = remove_feature-Fits i s h
call-Fits (update_face i f) s o h = update_feature-Fits i f s h
call-Fits (update_faces parse disk t) s o h = absurd (ground arith)
call-Fits (name_camera none) s o h = h
call-Fits (name_camera (some mac)) s o h = h

run-Fits : (cs : List Call) (s : Store) → all_one_by_one cs ≡ true → Fits s → Fits (run cs s).0
unfolding run
run-Fits [] s o h = h
run-Fits (c ∷ cs) s o h =
    run-Fits cs (call c s).0 (ground (arith, o)) (call-Fits c s (ground (arith, o)) h)

-- After calls on a new manager of which none is the JSON update, at most twenty faces are kept.
reached-Fits : (cs : List Call) → all_one_by_one cs ≡ true → Fits (run cs new).0
unfolding new
reached-Fits cs o = run-Fits cs new o (omega arith)

-- No two features share an id.
abbrev pub Distinct : List IdentificationFeature → Type 0
Distinct [] = Unit
Distinct (f ∷ fs) = (has_id (IdentificationFeature.id f) fs ≡ false) × Distinct fs

has_id-append :
    (j : Bytes) (fs : List IdentificationFeature) (g : IdentificationFeature)
    → has_id j (fs ++ g ∷ [])
      ≡ (if has_id j fs then true else same_text (IdentificationFeature.id g) j)
unfolding has_id
has_id-append j [] g = ground arith
has_id-append j (f ∷ fs) g = ground (arith, has_id-append j fs g)

pub Distinct-append :
    (fs : List IdentificationFeature) (g : IdentificationFeature)
    → Distinct fs
    → has_id (IdentificationFeature.id g) fs ≡ false
    → Distinct (fs ++ g ∷ [])
unfolding has_id
Distinct-append [] g d h = (refl, tt)
Distinct-append (f ∷ fs) g (n, d) h = (
  ground (
    arith,
    n,
    h,
    has_id-append (IdentificationFeature.id f) fs g,
    same_text_iff (IdentificationFeature.id f) (IdentificationFeature.id g),
    same_text_iff (IdentificationFeature.id g) (IdentificationFeature.id f),
  ),
  Distinct-append fs g d (ground (arith, h)),
)

has_id-erase_feature :
    (i j : Bytes) (fs gs : List IdentificationFeature)
    → erase_feature i fs ≡ some gs
    → has_id j fs ≡ false
    → has_id j gs ≡ false
unfolding erase_feature has_id
has_id-erase_feature i j [] gs e h = absurd (ground arith)
has_id-erase_feature i j (f ∷ fs) gs e h = grind (arith, has_id-erase_feature i j fs)

pub Distinct-erase_feature :
    (i : Bytes) (fs gs : List IdentificationFeature)
    → erase_feature i fs ≡ some gs
    → Distinct fs
    → Distinct gs
unfolding erase_feature
Distinct-erase_feature i [] gs e d = absurd (ground arith)
Distinct-erase_feature i (f ∷ fs) gs e (n, d) = elim (Option-cases (erase_feature i fs)) [
  | inl q ↦ subst Distinct (ground arith) d
  | inr (hs, q) ↦ elim (Bool-cases (same_text (IdentificationFeature.id f) i)) [
    | inl b ↦ subst Distinct (ground arith) d
    | inr b ↦ subst Distinct {x = f ∷ hs} (ground arith) (
      has_id-erase_feature i (IdentificationFeature.id f) fs hs q n,
      Distinct-erase_feature i fs hs q d,
    )
  ]
]

has_id-replace_feature :
    (i j : Bytes) (g : IdentificationFeature) (fs gs : List IdentificationFeature)
    → replace_feature i g fs ≡ some gs
    → IdentificationFeature.id g ≡ i
    → has_id j gs ≡ has_id j fs
unfolding replace_feature has_id
has_id-replace_feature i j g [] gs e h = absurd (ground arith)
has_id-replace_feature i j g (f ∷ fs) gs e h =
    grind (arith, has_id-replace_feature i j g fs, same_text_iff (IdentificationFeature.id f) i)

pub Distinct-replace_feature :
    (i : Bytes) (g : IdentificationFeature) (fs gs : List IdentificationFeature)
    → replace_feature i g fs ≡ some gs
    → IdentificationFeature.id g ≡ i
    → Distinct fs
    → Distinct gs
unfolding replace_feature
Distinct-replace_feature i g [] gs e h d = absurd (ground arith)
Distinct-replace_feature i g (f ∷ fs) gs e h (n, d) =
    elim (Bool-cases (same_text (IdentificationFeature.id f) i)) [
      | inl b ↦
          let same : IdentificationFeature.id f ≡ IdentificationFeature.id g =
            (same_text_iff (IdentificationFeature.id f) i).0 b ∙ sym h in
          subst Distinct {x = g ∷ fs} (ground arith) (subst (λ j. has_id j fs ≡ false) same n, d)
      | inr b ↦ elim (Option-cases (replace_feature i g fs)) [
        | inl q ↦ absurd (ground arith)
        | inr (hs, q) ↦ subst Distinct {x = f ∷ hs} (ground arith) (
          has_id-replace_feature i (IdentificationFeature.id f) g fs hs q h ∙ n,
          Distinct-replace_feature i g fs hs q h d,
        )
      ]
    ]
