-- ===== src/Camera/Settings/Calls.antt =====
-- The parses of the settings as runs of the manager's calls, so that what holds of runs holds of
-- them.
use ipc_with_cht.Prelude.{
  ℕ, ◌≡◌, refl, sym, ap, ◌∙◌, subst, true, Option, none, some, List, [], ◌∷◌, ◌++◌, append_assoc,
  append-nil, arith, if◌then◌else◌, if-both, inl, inr, ◌⊎◌,
}
use ipc_with_cht.Prelude.Bytes.{Bytes}
use ipc_with_cht.Prelude.Text.{codes}
use ipc_with_cht.Prelude.Dict.{Dict}
use ipc_with_cht.Prelude.Integers.{print_int}
use ipc_with_cht.Camera.Json.{
  Json, text, int, object, array, other, Members, text_member, int_member,
}
use ipc_with_cht.Camera.Store.{Store, Step, then_step, set_parameter, set_ntp_server}
use ipc_with_cht.Camera.Runs.{
  Call, set, set_ntp, remove, register, unregister, add_face, remove_face, update_face,
  update_faces, name_camera, call, run,
}
use ipc_with_cht.Camera.Runs.Mirror.{writes, Mirrors, mirror, run-Mirrors}
use ipc_with_cht.Camera.Settings.{
  set_text_member, set_text_members, set_int_member, set_int_members, Applied, applied,
  is_blank_text, with_parsed, parse_hami_cam_info, parse_hami_settings, change_ntp_server,
  handle_ntp_server, apply_system_settings, parse_hami_system_settings,
}
use ipc_with_cht.Camera.Settings.Keys.{info_texts, settings_texts, settings_ints, system_texts}

-- A step that is a run of calls of `setParameter` and `setNtpServer`.
abbrev pub IsRun : Store → Step → Type 0
IsRun s t = (cs : List Call) × ((writes cs ≡ true) × (run cs s ≡ t))

writes-append : (cs ds : List Call) → writes cs ≡ true → writes ds ≡ true → writes (cs ++ ds) ≡ true
unfolding writes
writes-append [] ds h g = g
writes-append (set now k v ∷ cs) ds h g = writes-append cs ds h g
writes-append (set_ntp now v ∷ cs) ds h g = writes-append cs ds h g
writes-append (remove k ∷ cs) ds h g = absurd (ground arith)
writes-append (register k ∷ cs) ds h g = absurd (ground arith)
writes-append (unregister j ∷ cs) ds h g = absurd (ground arith)
writes-append (add_face f ∷ cs) ds h g = absurd (ground arith)
writes-append (remove_face j ∷ cs) ds h g = absurd (ground arith)
writes-append (update_face j f ∷ cs) ds h g = absurd (ground arith)
writes-append (update_faces p q t ∷ cs) ds h g = absurd (ground arith)
writes-append (name_camera mac ∷ cs) ds h g = absurd (ground arith)

run-append : (cs ds : List Call) (s : Store) → run (cs ++ ds) s ≡ then_step (run cs s) (run ds)
unfolding run
run-append [] ds s = refl
run-append (c ∷ cs) ds s =
    let (s', ns) = call c s in
    let (s'', ms) = run cs s' in
    ap (λ (t : Step). then_step (s', ns) (λ r. t)) (run-append cs ds s')
    ∙ ap (λ l. ((run ds s'').0, l)) (sym (append_assoc ns ms (run ds s'').1))

IsRun-none : (s : Store) → IsRun s (s, [])
unfolding run writes
IsRun-none s = ([], (refl, refl))

IsRun-set : (now : ℕ) (k v : Bytes) (s : Store) → IsRun s (set_parameter now k v s)
unfolding run call writes
IsRun-set now k v s =
    let t = set_parameter now k v s in
    (set now k v ∷ [], (refl, ap (λ l. (t.0, l)) (append-nil t.1)))

IsRun-set_ntp : (now : ℕ) (v : Bytes) (s : Store) → IsRun s (set_ntp_server now v s)
unfolding run call writes
IsRun-set_ntp now v s =
    let t = set_ntp_server now v s in
    (set_ntp now v ∷ [], (refl, ap (λ l. (t.0, l)) (append-nil t.1)))

IsRun-then :
    (s : Store) (t : Step) (f : Store → Step)
    → IsRun s t
    → IsRun t.0 (f t.0)
    → IsRun s (then_step t f)
IsRun-then s t f (cs, (w, e)) (ds, (v, g)) = (
  cs ++ ds,
  (
    writes-append cs ds w v,
    run-append cs ds s
        ∙ ap (λ (r : Step). then_step r (run ds)) e
        ∙ ap (λ (r : Step). then_step t (λ x. r)) g,
  ),
)

module _ (now : ℕ) (m : Members) where
  IsRun-set_text_member : (k : Bytes) (s : Store) → IsRun s (set_text_member now k m s)
  unfolding set_text_member
  IsRun-set_text_member k s =
      elim (text_member k m)
        as (λ o.
          let t : Step = elim o [ none ↦ (s, []) | some v ↦ set_parameter now k v s ] in
          IsRun s t) [ none ↦ IsRun-none s | some v ↦ IsRun-set now k v s ]

  IsRun-set_text_members : (ks : List Bytes) (s : Store) → IsRun s (set_text_members now ks m s)
  unfolding set_text_members
  IsRun-set_text_members [] s = IsRun-none s
  IsRun-set_text_members (k ∷ ks) s =
      let t = set_text_member now k m s in
      IsRun-then s t (set_text_members now ks m) (IsRun-set_text_member k s)
        (IsRun-set_text_members ks t.0)

  IsRun-set_int_member : (k : Bytes) (s : Store) → IsRun s (set_int_member now k m s)
  unfolding set_int_member
  IsRun-set_int_member k s =
      elim (int_member k m)
        as (λ o.
          let t : Step = elim o [ none ↦ (s, []) | some i ↦ set_parameter now k (print_int i) s ] in
          IsRun s t) [ none ↦ IsRun-none s | some i ↦ IsRun-set now k (print_int i) s ]

  IsRun-set_int_members : (ks : List Bytes) (s : Store) → IsRun s (set_int_members now ks m s)
  unfolding set_int_members
  IsRun-set_int_members [] s = IsRun-none s
  IsRun-set_int_members (k ∷ ks) s =
      let t = set_int_member now k m s in
      IsRun-then s t (set_int_members now ks m) (IsRun-set_int_member k s)
        (IsRun-set_int_members ks t.0)

change_ntp_server_step :
    (now : ℕ) (new : Bytes) (s : Store) → (change_ntp_server now new s).0 ≡ set_ntp_server now new s
unfolding change_ntp_server
change_ntp_server_step now new s = ground arith

IsRun-handle_ntp_server :
    (now : ℕ) (o : Option Bytes) (s : Store) (t : Step)
    → IsRun s t
    → IsRun s (Applied.step (handle_ntp_server now o t))
unfolding handle_ntp_server
IsRun-handle_ntp_server now none s t h = h
IsRun-handle_ntp_server now (some new) s t h =
    IsRun-then s t (λ r. (change_ntp_server now new r).0) h
      (subst (IsRun t.0) (sym (change_ntp_server_step now new t.0)) (IsRun-set_ntp now new t.0))

-- An aborted parse leaves nothing.
abbrev Runs : Store → Option Applied → Type 0
Runs s none = Unit
Runs s (some a) = IsRun s (Applied.step a)

members-Runs :
    (f : Members → Store → Applied) (o : Option Json) (s : Store)
    → ((m : Members) → IsRun s (Applied.step (f m s)))
    → Runs s (with_parsed f o s)
members-Runs f none s h = IsRun-none s
members-Runs f (some (object m)) s h = h m
members-Runs f (some (text t)) s h = tt
members-Runs f (some (int i)) s h = tt
members-Runs f (some (array es)) s h = tt
members-Runs f (some other) s h = tt

module _ (parse : Bytes → Option Json) (now : ℕ) (t : Bytes) (s : Store) where
  text-Runs :
      (f : Members → Store → Applied)
      → ((m : Members) → IsRun s (Applied.step (f m s)))
      → Runs s (if is_blank_text t then some (applied true (s, [])) else with_parsed f (parse t) s)
  text-Runs f h =
      if-both (Runs s) (is_blank_text t) (some (applied true (s, []))) (with_parsed f (parse t) s)
        (IsRun-none s) (members-Runs f (parse t) s h)

  parse_hami_cam_info-Runs : Runs s (parse_hami_cam_info parse now t s)
  unfolding parse_hami_cam_info
  parse_hami_cam_info-Runs = text-Runs _ (λ m.
      IsRun-then s (set_int_member now (codes "camSid") m s) (set_text_members now info_texts m)
        (IsRun-set_int_member now m (codes "camSid") s)
        (IsRun-set_text_members now m info_texts (set_int_member now (codes "camSid") m s).0))

  parse_hami_settings-Runs : Runs s (parse_hami_settings parse now t s)
  unfolding parse_hami_settings
  parse_hami_settings-Runs = text-Runs _ (λ m.
      IsRun-then s (set_text_members now settings_texts m s) (set_int_members now settings_ints m)
        (IsRun-set_text_members now m settings_texts s)
        (IsRun-set_int_members now m settings_ints (set_text_members now settings_texts m s).0))

  parse_hami_system_settings-Runs : Runs s (parse_hami_system_settings parse now t s)
  unfolding parse_hami_system_settings apply_system_settings
  parse_hami_system_settings-Runs = text-Runs (apply_system_settings now) (λ m.
      IsRun-handle_ntp_server now (text_member (codes "ntpServer") m) s
        (then_step (set_text_members now system_texts m s)
          (set_int_member now (codes "otaQueryInterval") m))
        (IsRun-then s (set_text_members now system_texts m s)
          (set_int_member now (codes "otaQueryInterval") m)
          (IsRun-set_text_members now m system_texts s)
          (IsRun-set_int_member now m (codes "otaQueryInterval")
            (set_text_members now system_texts m s).0)))

  IsRun-Mirrors :
      (i : ℕ) (d : Dict Bytes) (r : Step)
      → IsRun s r
      → Mirrors i d s
      → Mirrors i (mirror i r.1 d) r.0
  IsRun-Mirrors i d r (cs, (w, e)) m =
      subst (λ (q : Step). Mirrors i (mirror i q.1 d) q.0) e (run-Mirrors i cs d s w m)

  -- A client whose copy has the manager's parameters has them behind each of the three parses that
  -- come to an end: of hamiCamInfo, of hamiSettings and of hamiSystemSettings.
  pub parses_mirrored :
      (i : ℕ) (d : Dict Bytes) (a : Applied)
      → Mirrors i d s
      → (parse_hami_cam_info parse now t s ≡ some a)
        ⊎ ((parse_hami_settings parse now t s ≡ some a)
            ⊎ (parse_hami_system_settings parse now t s ≡ some a))
      → Mirrors i (mirror i (Applied.step a).1 d) (Applied.step a).0
  parses_mirrored i d a m h =
      IsRun-Mirrors i d (Applied.step a)
        (elim h [
          | inl e ↦ subst (Runs s) e parse_hami_cam_info-Runs
          | inr g ↦ elim g [
            | inl e ↦ subst (Runs s) e parse_hami_settings-Runs
            | inr e ↦ subst (Runs s) e parse_hami_system_settings-Runs
          ]
        ])
        m
