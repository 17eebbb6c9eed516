-- ===== src/Prelude/Dict.antt =====
-- std::map keyed by std::string, as an association list. The order of the entries is not observed
-- by the operations modelled.
use mathlib.Core.Path.{◌≡◌, refl}
use mathlib.Core.Logic.{◌≢◌}
use mathlib.Core.Option.{Option, none, some}
use mathlib.Core.List.{List, [], ◌∷◌}
use native.Mathlib.Omega.{arith}
use ipc_with_cht.Prelude.Tests.{if◌then◌else◌}
use ipc_with_cht.Prelude.Bytes.{Bytes, same_text, same_text_refl, same_text_ne, same_text_iff}

abbrev pub Dict {ℓ} : Type ℓ → Type ℓ
Dict V = List (Bytes × V)

module _ {ℓ} {V : Type ℓ} where
  -- `find`; `none` is `end()`.
  unfoldable pub lookup : Bytes → Dict V → Option V
  lookup k [] = none
  lookup k ((j, v) ∷ d) = if same_text j k then some v else lookup k d

  -- `m[k] = v`
  unfoldable pub insert : Bytes → V → Dict V → Dict V
  insert k v [] = (k, v) ∷ []
  insert k v ((j, w) ∷ d) =
      let rest = insert k v d in if same_text j k then (j, v) ∷ d else (j, w) ∷ rest

  -- `erase`
  unfoldable pub erase : Bytes → Dict V → Dict V
  erase k [] = []
  erase k ((j, w) ∷ d) = let rest = erase k d in if same_text j k then rest else (j, w) ∷ rest

  pub lookup-insert_self : (k : Bytes) (v : V) (d : Dict V) → lookup k (insert k v d) ≡ some v
  unfolding lookup insert
  lookup-insert_self k v [] = ground (arith, same_text_refl k)
  lookup-insert_self k v ((j, w) ∷ d) = ground (arith, lookup-insert_self k v d)

  pub lookup-insert_ne :
      (j k : Bytes) (v : V) (d : Dict V) → j ≢ k → lookup j (insert k v d) ≡ lookup j d
  unfolding lookup insert
  lookup-insert_ne j k v [] h = ground (arith, same_text_ne k j)
  lookup-insert_ne j k v ((i, w) ∷ d) h =
      ground (arith, lookup-insert_ne j k v d h, same_text_iff i k, same_text_iff i j)

  pub lookup-erase_self : (k : Bytes) (d : Dict V) → lookup k (erase k d) ≡ none
  unfolding lookup erase
  lookup-erase_self k [] = refl
  lookup-erase_self k ((j, w) ∷ d) = ground (arith, lookup-erase_self k d)

  pub lookup-erase_ne : (j k : Bytes) (d : Dict V) → j ≢ k → lookup j (erase k d) ≡ lookup j d
  unfolding lookup erase
  lookup-erase_ne j k [] h = refl
  lookup-erase_ne j k ((i, w) ∷ d) h =
      ground (arith, lookup-erase_ne j k d h, same_text_iff i k, same_text_iff i j)
