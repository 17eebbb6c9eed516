-- ===== src/Camera/Settings/Ntp.antt =====
-- When a text of system settings has the clock synchronised.
use ipc_with_cht.Prelude.{
  ℕ, ◌≡◌, refl, sym, ap, ◌∙◌, subst, true, Option, none, some, [], arith, if-both,
}
use ipc_with_cht.Prelude.Bytes.{Bytes, same_text, same_text_iff}
use ipc_with_cht.Prelude.Text.{codes}
use ipc_with_cht.Prelude.Dict.{lookup}
use ipc_with_cht.Camera.Json.{Json, text, int, object, array, other, Members, text_member}
use ipc_with_cht.Camera.Store.{Store, Step, then_step, get_ntp_server, get_parameter, default_to}
use ipc_with_cht.Camera.Settings.{
  set_text_members, set_int_member, Applied, applied, is_blank_text, with_parsed, change_ntp_server,
  handle_ntp_server, apply_system_settings, parse_hami_system_settings,
}
use ipc_with_cht.Camera.Settings.Keys.{system_texts}
use ipc_with_cht.Camera.Settings.Read.{
  lookup-set_text_members, lookup-set_int_member, listed, or_else,
}

module _ (now : ℕ) where
  -- The server that is set already is no change.
  change_ntp_server_same :
      (new : Bytes) (s : Store) → get_ntp_server s ≡ new → (change_ntp_server now new s).1 ≡ []
  unfolding change_ntp_server
  change_ntp_server_same new s h =
      let q : same_text new (get_ntp_server s) ≡ true =
        (same_text_iff new (get_ntp_server s)).1 (sym h) in
      ground (arith, q)

  -- The loop over the texts has set the server of the JSON object.
  ntp_server_set :
      (m : Members) (new : Bytes) (s : Store)
      → text_member (codes "ntpServer") m ≡ some new
      → get_ntp_server
          (then_step
            (set_text_members now system_texts m s)
            (set_int_member now (codes "otaQueryInterval") m)).0
        ≡ new
  unfolding get_ntp_server get_parameter listed same_text
  ntp_server_set m new s h =
      let k = codes "ntpServer" in
      let s' = (set_text_members now system_texts m s).0 in
      ap (default_to (codes "tock.stdtime.gov.tw")) (
        lookup-set_int_member now m k (codes "otaQueryInterval") s'
        ∙ lookup-set_text_members now m k system_texts s
        ∙ ap (λ o. or_else o (lookup k (Store.parameters s))) h)

  handle_ntp_server_same :
      (o : Option Bytes) (t : Step)
      → ((new : Bytes) → o ≡ some new → get_ntp_server t.0 ≡ new)
      → Applied.syncs (handle_ntp_server now o t) ≡ []
  unfolding handle_ntp_server
  handle_ntp_server_same none t h = refl
  handle_ntp_server_same (some new) t h = change_ntp_server_same new t.0 (h new refl)

  apply_system_settings_same :
      (m : Members) (s : Store) → Applied.syncs (apply_system_settings now m s) ≡ []
  unfolding apply_system_settings
  apply_system_settings_same m s =
      handle_ntp_server_same (text_member (codes "ntpServer") m)
        (then_step (set_text_members now system_texts m s)
          (set_int_member now (codes "otaQueryInterval") m))
        (λ new. ntp_server_set m new s)

-- A parse that comes to its end has called for no synchronisation.
abbrev Quiet : Option Applied → Type 0
Quiet none = Unit
Quiet (some a) = Applied.syncs a ≡ []

members-Quiet :
    (f : Members → Store → Applied) (o : Option Json) (s : Store)
    → ((m : Members) → Applied.syncs (f m s) ≡ [])
    → Quiet (with_parsed f o s)
members-Quiet f none s h = refl
members-Quiet f (some (object m)) s h = h m
members-Quiet f (some (text t)) s h = tt
members-Quiet f (some (int i)) s h = tt
members-Quiet f (some (array es)) s h = tt
members-Quiet f (some other) s h = tt

-- Whatever the text of system settings, and whichever server was set before: parsing it never has
-- the clock synchronised, because the loop over the texts has set the new server by the time it is
-- compared with the current one.
pub parse_hami_system_settings_never_syncs :
    (parse : Bytes → Option Json) (now : ℕ) (t : Bytes) (s : Store) (a : Applied)
    → parse_hami_system_settings parse now t s ≡ some a
    → Applied.syncs a ≡ []
unfolding parse_hami_system_settings
parse_hami_system_settings_never_syncs parse now t s a e = subst Quiet e (
    if-both Quiet (is_blank_text t) (some (applied true (s, [])))
      (with_parsed (apply_system_settings now) (parse t) s) refl
      (members-Quiet (apply_system_settings now) (parse t) s
        (λ m. apply_system_settings_same now m s)))
