-- ===== src/Camera/Initial/Checked.antt =====
-- What holds of the parameters behind parseAndSaveInitialInfo.
use ipc_with_cht.Prelude.{
  ℕ, ◌≤◌, ◌≡◌, refl, sym, subst, Bool, true, Option, none, some, [], ◌∷◌, arith, Option-cases,
  Bool-cases, inl, inr, ◌⊎◌, ◌↔◌, length,
}
use ipc_with_cht.Prelude.Bytes.{Bytes, same_text, same_text_iff}
use ipc_with_cht.Prelude.Text.{codes}
use ipc_with_cht.Prelude.Dict.{Dict, lookup}
use ipc_with_cht.Prelude.Integers.{ℤ, pos, negsuc, print_int, is_int}
use ipc_with_cht.Prelude.Integers.Roundtrip.{parse_int-print_int}
use ipc_with_cht.Camera.Json.{Json}
use ipc_with_cht.Camera.Store.{Store}
use ipc_with_cht.Camera.Faces.{Writing}
use ipc_with_cht.Camera.Settings.{
  Applied, parse_hami_cam_info, parse_hami_settings, parse_hami_ai_settings,
  parse_hami_system_settings,
}
use ipc_with_cht.Camera.Initial.{
  restamp, Initial, finish, Texts, parse_and_save_initial_info, validate_parameter, camera_id,
  active_status, accept,
}

lookup-restamp :
    (now : ℕ) (j : Bytes) (d : Dict ℕ)
    → (lookup j (restamp now d) ≡ none) ⊎ (lookup j (restamp now d) ≡ some now)
unfolding lookup restamp
lookup-restamp now j [] = inl refl
lookup-restamp now j ((k, t) ∷ d) = elim (Bool-cases (same_text k j)) [
  | inl h ↦ inr (ground arith)
  | inr h ↦ elim (lookup-restamp now j d) [
    | inl q ↦ inl (ground arith)
    | inr q ↦ inr (ground arith)
  ]
]

-- The time zones: 0 to 51.
abbrev pub InZones : ℤ → Type 0
InZones (pos n) = n ≤ 51
InZones (negsuc n) = ⊥

-- Of the texts that an `int` is written as, `validateParameter` accepts those of 0 to 51 as a time
-- zone, and no others.
pub validate_parameter-timezone :
    (i : ℤ)
    → is_int i ≡ true
    → (validate_parameter (codes "timezone") (print_int i) ≡ true) ↔ InZones i
unfolding validate_parameter same_text
validate_parameter-timezone (pos n) h =
    let q = parse_int-print_int (pos n) h in (λ e. ground (arith, e, q), λ e. ground (arith, e, q))
validate_parameter-timezone (negsuc n) h =
    let q = parse_int-print_int (negsuc n) h in
    (λ e. absurd (ground (arith, e, q)), λ e. elim e [ ])

-- What is accepted has a camera id of at least ten bytes and an active status of "0" or "1", and
-- all four texts were taken and the file written.
accept_sound :
    (saved : Bool) (i : Initial)
    → accept saved i ≡ true
    → (10 ≤ length (camera_id (Initial.step i).0))
      × (((active_status (Initial.step i).0 ≡ codes "0")
            ⊎ (active_status (Initial.step i).0 ≡ codes "1"))
          × ((Initial.ok i ≡ true) × (saved ≡ true)))
unfolding accept validate_parameter same_text
accept_sound saved i h =
    let st = active_status (Initial.step i).0 in
    (
      ground (arith, h),
      (
        ground (arith, h, same_text_iff st (codes "0"), same_text_iff st (codes "1")),
        (ground (arith, h), ground (arith, h)),
      ),
    )

module _ (parse : Bytes → Option Json) (disk : Bytes → Writing) (now : ℕ) where
  parse_and_save_initial_info-finish :
      (t : Texts) (s : Store) (i : Initial)
      → parse_and_save_initial_info parse disk now t s ≡ some i
      → (a : Applied) × ((b : Applied) × ((c : Applied) × ((d : Applied) × (i
                ≡ finish now a b c d))))
  unfolding parse_and_save_initial_info
  parse_and_save_initial_info-finish t s i e =
      elim (Option-cases (parse_hami_cam_info parse now (Texts.cam_info t) s)) [
        | inl h ↦ absurd (grind (arith, h, e))
        | inr (a, h) ↦
            elim (Option-cases
              (parse_hami_settings parse now (Texts.settings t) (Applied.step a).0)) [
                | inl g ↦ absurd (grind (arith, h, g, e))
                | inr (b, g) ↦
                    let c =
                      parse_hami_ai_settings parse now disk (Texts.ai_settings t)
                        (Applied.step b).0 in
                    elim (Option-cases (
                      parse_hami_system_settings parse now (Texts.system_settings t)
                        (Applied.step c).0)) [
                          | inl k ↦ absurd (grind (arith, h, g, k, e))
                          | inr (d, k) ↦ (a, (b, (c, (d, grind (arith, h, g, k, e)))))
                        ]
              ]
      ]

-- When the four texts have been gone through, no parameter has a time of update but that of the
-- call, not even one that none of the texts has named.
parse_and_save_initial_info_dates :
    (parse : Bytes → Option Json) (disk : Bytes → Writing) (now : ℕ) (t : Texts) (s : Store)
    (i : Initial)
    → parse_and_save_initial_info parse disk now t s ≡ some i
    → (j : Bytes)
    → (lookup j (Store.times (Initial.step i).0) ≡ none)
      ⊎ (lookup j (Store.times (Initial.step i).0) ≡ some now)
unfolding finish
parse_and_save_initial_info_dates parse disk now t s i e j =
    let (a, (b, (c, (d, q)))) = parse_and_save_initial_info-finish parse disk now t s i e in
    subst
      (λ (r : Initial).
        (lookup j (Store.times (Initial.step r).0) ≡ none)
        ⊎ (lookup j (Store.times (Initial.step r).0) ≡ some now))
      (sym q) (lookup-restamp now j (Store.times (Applied.step d).0))
