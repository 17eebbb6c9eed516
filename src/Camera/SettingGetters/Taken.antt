-- ===== src/Camera/SettingGetters/Taken.antt =====
-- The integers of hamiSettings, from the JSON text to the getter.
use ipc_with_cht.Prelude.{ℕ, ◌≡◌, ap, ◌∙◌, true, false, Option, some, arith}
use ipc_with_cht.Prelude.Bytes.{Bytes}
use ipc_with_cht.Prelude.Dict.{lookup}
use ipc_with_cht.Prelude.Integers.{ℤ, print_int, parse_int, is_int}
use ipc_with_cht.Prelude.Integers.Roundtrip.{parse_int-print_int}
use ipc_with_cht.Camera.Json.{Json, object, Members, int_member}
use ipc_with_cht.Camera.Store.{Store, default_to, get_parameter}
use ipc_with_cht.Camera.Settings.{Applied, is_blank_text, parse_hami_settings}
use ipc_with_cht.Camera.Settings.Keys.{settings_ints}
use ipc_with_cht.Camera.Settings.Read.{listed, int_text, parse_hami_settings_reads}
use ipc_with_cht.Camera.SettingGetters.{
  IntSetting, int_setting_key, int_setting_default, int_setting,
}

-- A text of hamiSettings that parses to an object whose member for one of the five integer settings
-- is an `int`: the parse succeeds, and the setting's getter then gives that number and does not
-- throw.
pub int_setting_taken :
    (parse : Bytes → Option Json) (now : ℕ) (t : Bytes) (m : Members) (s : Store) (f : IntSetting)
    (i : ℤ)
    → is_blank_text t ≡ false
    → parse t ≡ some (object m)
    → listed (int_setting_key f) settings_ints ≡ true
    → int_member (int_setting_key f) m ≡ some i
    → is_int i ≡ true
    → (a : Applied) × ((parse_hami_settings parse now t s ≡ some a)
        × ((Applied.ok a ≡ true) × (int_setting f (Applied.step a).0 ≡ some i)))
unfolding int_setting get_parameter int_text
int_setting_taken parse now t m s f i b e l h n =
    let (a, (p, (ok, reads))) = parse_hami_settings_reads parse now t m s b e in
    let found : lookup (int_setting_key f) (Store.parameters (Applied.step a).0)
        ≡ some (print_int i) =
      grind (arith, reads (int_setting_key f), l, h) in
    (
      a,
      (
        p,
        (
          ok,
          ap (λ o. parse_int (default_to (int_setting_default f) o)) found
              ∙ parse_int-print_int i n,
        ),
      ),
    )
