-- ===== src/Camera/Store/Values.antt =====
-- What is read behind a write of camera_parameters_manager.cpp.
use ipc_with_cht.Prelude.{ℕ, ◌+◌, ◌*◌, ◌^◌, ◌≤◌, ◌≡◌, true, some, ◌↔◌, [], arith, if◌then◌else◌}
use ipc_with_cht.Prelude.Bytes.{Bytes, same_text, same_text_iff, same_text_refl}
use ipc_with_cht.Prelude.Dict.{
  Dict, lookup, insert, lookup-insert_self, lookup-insert_ne, lookup-erase_self, lookup-erase_ne,
}
use ipc_with_cht.Camera.Store.{
  Store, set_parameter, get_parameter, remove_parameter, write, is_parameter_stale,
}

-- What `lookup` finds behind a write, for any key.
pub lookup-insert {ℓ} :
    {A : Type ℓ} (k j : Bytes) (a : A) (d : Dict A)
    → lookup j (insert k a d) ≡ (if same_text k j then some a else lookup j d)
lookup-insert k j a d =
    ground (arith, lookup-insert_self k a d, lookup-insert_ne j k a d, same_text_iff k j)

module _ (now : ℕ) (k v : Bytes) (s : Store) where
  -- Both branches of the test leave the same store.
  pub set_parameter_writes : (set_parameter now k v s).0 ≡ write now k v s
  unfolding set_parameter
  set_parameter_writes = ground arith

  -- A text that was set is read back, whatever the default, and every other parameter reads as
  -- before.
  pub get_parameter-set_parameter :
      (j d : Bytes)
      → get_parameter j d (set_parameter now k v s).0
        ≡ (if same_text k j then v else get_parameter j d s)
  unfolding get_parameter write
  get_parameter-set_parameter j d =
      ground (arith, set_parameter_writes, lookup-insert k j v (Store.parameters s))

  -- A parameter that was set at a time is not stale until more than `max_age` whole milliseconds
  -- have gone by, and is stale from then on.
  is_parameter_stale-set_parameter :
      (later max_age : ℕ)
      → (is_parameter_stale later k max_age (set_parameter now k v s).0 ≡ true)
        ↔ (now + (max_age + 1) * 10 ^ 6 ≤ later)
  unfolding is_parameter_stale write
  is_parameter_stale-set_parameter later max_age =
      ground (arith, set_parameter_writes, lookup-insert_self k now (Store.times s))

  -- Setting a value twice tells nobody the second time.
  set_parameter_again : (later : ℕ) → (set_parameter later k v (set_parameter now k v s).0).1 ≡ []
  unfolding set_parameter write
  set_parameter_again later =
      ground (arith, lookup-insert k k v (Store.parameters s), same_text_refl k, same_text_refl v)

-- A parameter that was removed is gone, and every other parameter reads as before.
get_parameter-remove_parameter :
    (k j d : Bytes) (s : Store)
    → get_parameter j d (remove_parameter k s).1
      ≡ (if same_text k j then d else get_parameter j d s)
unfolding get_parameter remove_parameter
get_parameter-remove_parameter k j d s = ground (
  arith,
  lookup-erase_self k (Store.parameters s),
  lookup-erase_ne j k (Store.parameters s),
  same_text_iff k j,
)
