-- ===== src/TimeZones/Tables.antt =====
-- The two tables of time zones tell the same.
use ipc_with_cht.Prelude.{◌≡◌, Option, none, some, List, [], ◌∷◌}
use ipc_with_cht.Prelude.Bytes.{Bytes}
use ipc_with_cht.Prelude.Dict.{Dict, lookup}
use ipc_with_cht.TimeZones.{timezone_map, TimezoneInfo, timezone_infos, find_info}

-- What the list has for an id, as the map would have it.
unfoldable pub tz_of : Option TimezoneInfo → Option Bytes
tz_of none = none
tz_of (some t) = some (TimezoneInfo.tz_string t)

-- Each entry of the map is that of the list, and each of the list that of the map.
abbrev MapListed : Dict Bytes → Type 0
MapListed [] = Unit
MapListed ((k, t) ∷ d) = (tz_of (find_info k timezone_infos) ≡ some t) × MapListed d

abbrev ListMapped : List TimezoneInfo → Type 0
ListMapped [] = Unit
ListMapped (t ∷ ts) =
    (lookup (TimezoneInfo.id t) timezone_map ≡ some (TimezoneInfo.tz_string t)) × ListMapped ts
