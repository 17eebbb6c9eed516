-- ===== src/Camera/Settings/Read.antt =====
-- Which parameters a text of settings sets, and to what.
use ipc_with_cht.Prelude.{
  ℕ, ◌≡◌, refl, ap, ◌∙◌, Bool, true, false, Option, none, some, List, [], ◌∷◌, arith, if◌then◌else◌,
  Option-cases, inl, inr,
}
use ipc_with_cht.Prelude.Bytes.{Bytes, same_text, same_text_iff}
use ipc_with_cht.Prelude.Dict.{lookup}
use ipc_with_cht.Prelude.Integers.{print_int}
use ipc_with_cht.Camera.Json.{Json, object, Members, text_member, int_member}
use ipc_with_cht.Camera.Store.{Store, then_step, set_parameter, write}
use ipc_with_cht.Camera.Store.Values.{lookup-insert, set_parameter_writes}
use ipc_with_cht.Camera.Settings.{
  set_text_member, set_text_members, set_int_member, set_int_members, Applied, applied,
  is_blank_text, parse_hami_settings,
}
use ipc_with_cht.Camera.Settings.Keys.{settings_texts, settings_ints}

-- Whether a name is one of the list.
unfoldable pub listed : Bytes → List Bytes → Bool
listed j [] = false
listed j (k ∷ ks) = let rest = listed j ks in if same_text k j then true else rest

-- The first of two values that is there.
abbrev pub or_else {ℓ} : {A : Type ℓ} → Option A → Option A → Option A
or_else none o = o
or_else (some a) o = some a

-- The text that an `int` member is stored as.
unfoldable pub int_text : Bytes → Members → Option Bytes
unfolding int_member print_int
int_text k m = elim (int_member k m) [ none ↦ none | some i ↦ some (print_int i) ]

module _ (now : ℕ) (m : Members) (j : Bytes) where
  lookup-set_parameter :
      (k v : Bytes) (s : Store)
      → lookup j (Store.parameters (set_parameter now k v s).0)
        ≡ (if same_text k j then some v else lookup j (Store.parameters s))
  unfolding write
  lookup-set_parameter k v s =
      ap (λ t. lookup j (Store.parameters t)) (set_parameter_writes now k v s)
      ∙ lookup-insert k j v (Store.parameters s)

  lookup-set_text_member :
      (k : Bytes) (s : Store)
      → lookup j (Store.parameters (set_text_member now k m s).0)
        ≡ or_else (if same_text k j then text_member j m else none) (lookup j (Store.parameters s))
  unfolding set_text_member
  lookup-set_text_member k s = elim (Option-cases (text_member k m)) [
    | inl h ↦ grind (arith, same_text_iff k j, h)
    | inr (t, h) ↦ grind (arith, lookup-set_parameter k t s, same_text_iff k j, h)
  ]

  -- Behind the loop over the texts, a listed parameter has the text of the JSON member, if that is a
  -- text, and every other parameter has its old value.
  pub lookup-set_text_members :
      (ks : List Bytes) (s : Store)
      → lookup j (Store.parameters (set_text_members now ks m s).0)
        ≡ or_else (if listed j ks then text_member j m else none) (lookup j (Store.parameters s))
  unfolding set_text_members listed
  lookup-set_text_members [] s = refl
  lookup-set_text_members (k ∷ ks) s =
      ground (
        arith,
        lookup-set_text_member k s,
        lookup-set_text_members ks (set_text_member now k m s).0,
      )

  pub lookup-set_int_member :
      (k : Bytes) (s : Store)
      → lookup j (Store.parameters (set_int_member now k m s).0)
        ≡ or_else (if same_text k j then int_text j m else none) (lookup j (Store.parameters s))
  unfolding set_int_member int_text
  lookup-set_int_member k s = elim (Option-cases (int_member k m)) [
    | inl h ↦ grind (arith, same_text_iff k j, h)
    | inr (i, h) ↦ grind (arith, lookup-set_parameter k (print_int i) s, same_text_iff k j, h)
  ]

  lookup-set_int_members :
      (ks : List Bytes) (s : Store)
      → lookup j (Store.parameters (set_int_members now ks m s).0)
        ≡ or_else (if listed j ks then int_text j m else none) (lookup j (Store.parameters s))
  unfolding set_int_members listed
  lookup-set_int_members [] s = refl
  lookup-set_int_members (k ∷ ks) s =
      ground
        (arith, lookup-set_int_member k s, lookup-set_int_members ks (set_int_member now k m s).0)

-- A text of hamiSettings that parses to an object is taken whole: each parameter that the function
-- knows has the object's value for it, if that has the type asked for, and every other parameter
-- keeps its value.
pub parse_hami_settings_reads :
    (parse : Bytes → Option Json) (now : ℕ) (t : Bytes) (m : Members) (s : Store)
    → is_blank_text t ≡ false
    → parse t ≡ some (object m)
    → (a : Applied) × ((parse_hami_settings parse now t s ≡ some a)
        × ((Applied.ok a ≡ true)
            × ((j : Bytes)
                → lookup j (Store.parameters (Applied.step a).0)
                  ≡ or_else (if listed j settings_ints then int_text j m else none) (
                      or_else
                        (if listed j settings_texts then text_member j m else none)
                        (lookup j (Store.parameters s))))))
unfolding parse_hami_settings
parse_hami_settings_reads parse now t m s b e =
    let s' = (set_text_members now settings_texts m s).0 in
    (
      applied true (
          then_step (set_text_members now settings_texts m s)
            (set_int_members now settings_ints m)),
      (
        grind (arith, b, e),
        (
          refl,
          λ j.
              lookup-set_int_members now m j settings_ints s'
              ∙ ap (or_else (if listed j settings_ints then int_text j m else none))
                  (lookup-set_text_members now m j settings_texts s),
        ),
      ),
    )
