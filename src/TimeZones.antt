-- ===== src/TimeZones.antt =====
-- implement/zwsystemInterface/test_ipc/timezone_utils.cpp: the two tables of time zones and what is
-- looked up in them.
pub mod Tables
pub mod Known
pub mod Offsets
use ipc_with_cht.Prelude.{
  ℕ, ◌+◌, ◌==◌, Bool, true, false, ◌&&◌, ◌||◌, Option, none, some, List, [], ◌∷◌, ◌++◌, leb,
  is_empty, if◌then◌else◌, map,
}
use ipc_with_cht.Prelude.Bytes.{Bytes, same_text}
use ipc_with_cht.Prelude.Text.{codes}
use ipc_with_cht.Prelude.Dict.{Dict, lookup}

-- createTimezoneMap, in the order in which std::map has the keys.
abbrev pub timezone_map : Dict Bytes
timezone_map =
    (codes "0", codes "WAT-1")
    ∷ (codes "1", codes "GMT0")
    ∷ (codes "10", codes "JST-9")
    ∷ (codes "11", codes "AEST-10")
    ∷ (codes "12", codes "NCT-11")
    ∷ (codes "13", codes "NZST-12")
    ∷ (codes "14", codes "SST11")
    ∷ (codes "15", codes "HST10")
    ∷ (codes "16", codes "AKST9")
    ∷ (codes "17", codes "PST8")
    ∷ (codes "18", codes "MST7")
    ∷ (codes "19", codes "CST6")
    ∷ (codes "2", codes "CET-1")
    ∷ (codes "20", codes "EST5")
    ∷ (codes "21", codes "AST4")
    ∷ (codes "22", codes "BRT3")
    ∷ (codes "23", codes "MAT2")
    ∷ (codes "24", codes "AZOT1")
    ∷ (codes "3", codes "EET-2")
    ∷ (codes "4", codes "MSK-3")
    ∷ (codes "5", codes "GST-4")
    ∷ (codes "50", codes "PST8")
    ∷ (codes "51", codes "CST-8")
    ∷ (codes "6", codes "PKT-5")
    ∷ (codes "7", codes "BDT-6")
    ∷ (codes "8", codes "ICT-7")
    ∷ (codes "9", codes "CST-8")
    ∷ []

pub record TimezoneInfo : Type 0 where
  pub id : Bytes
  pub display_name : Bytes
  pub base_utc_offset : Bytes
  pub tz_string : Bytes

abbrev pub info : Bytes → Bytes → Bytes → Bytes → TimezoneInfo
info i d o t = record { id = i; display_name = d; base_utc_offset = o; tz_string = t }

-- createTimezoneInfoList.
abbrev pub timezone_infos : List TimezoneInfo
timezone_infos =
    info (codes "0") (codes "(GMT+01) Casablanca") (codes "3600") (codes "WAT-1")
    ∷ info (codes "1") (codes "(GMT) Greenwich Mean Time: London") (codes "0") (codes "GMT0")
    ∷ info (codes "2") (codes "(GMT+01) Amsterdam, Berlin, Rome, Vienna") (codes "3600")
        (codes "CET-1")
    ∷ info (codes "3") (codes "(GMT+02) Athens, Istanbul, Minsk") (codes "7200") (codes "EET-2")
    ∷ info (codes "4") (codes "(GMT+03) Moscow, St. Petersburg, Volgograd") (codes "10800")
        (codes "MSK-3")
    ∷ info (codes "5") (codes "(GMT+04) Abu Dhabi, Dubai, Muscat") (codes "14400") (codes "GST-4")
    ∷ info (codes "6") (codes "(GMT+05) Islamabad, Karachi, Tashkent") (codes "18000")
        (codes "PKT-5")
    ∷ info (codes "7") (codes "(GMT+06) Dhaka") (codes "21600") (codes "BDT-6")
    ∷ info (codes "8") (codes "(GMT+07) Bangkok, Hanoi, Jakarta") (codes "25200") (codes "ICT-7")
    ∷ info (codes "9") (codes "(GMT+08) Beijing, Hong Kong, Singapore") (codes "28800")
        (codes "CST-8")
    ∷ info (codes "10") (codes "(GMT+09) Seoul, Tokyo, Osaka") (codes "32400") (codes "JST-9")
    ∷ info (codes "11") (codes "(GMT+10) Canberra, Melbourne, Sydney") (codes "36000")
        (codes "AEST-10")
    ∷ info (codes "12") (codes "(GMT+11) Magadan, New Caledonia, Solomon Islands") (codes "39600")
        (codes "NCT-11")
    ∷ info (codes "13") (codes "(GMT+12) Auckland, Wellington, Fiji") (codes "43200")
        (codes "NZST-12")
    ∷ info (codes "14") (codes "(GMT-11) Midway Island, Samoa") (codes "-39600") (codes "SST11")
    ∷ info (codes "15") (codes "(GMT-10) Hawaii") (codes "-36000") (codes "HST10")
    ∷ info (codes "16") (codes "(GMT-09) Alaska") (codes "-32400") (codes "AKST9")
    ∷ info (codes "17") (codes "(GMT-08) Pacific Time (US & Canada)") (codes "-28800")
        (codes "PST8")
    ∷ info (codes "18") (codes "(GMT-07) Mountain Time (US & Canada)") (codes "-25200")
        (codes "MST7")
    ∷ info (codes "19") (codes "(GMT-06) Central Time (US & Canada), Mexico City") (codes "-21600")
        (codes "CST6")
    ∷ info (codes "20") (codes "(GMT-05) Eastern Time (US & Canada)") (codes "-18000")
        (codes "EST5")
    ∷ info (codes "21") (codes "(GMT-04) Atlantic Time (Canada), Caracas") (codes "-14400")
        (codes "AST4")
    ∷ info (codes "22") (codes "(GMT-03) Brasilia, Buenos Aires, Georgetown") (codes "-10800")
        (codes "BRT3")
    ∷ info (codes "23") (codes "(GMT-02) Mid-Atlantic") (codes "-7200") (codes "MAT2")
    ∷ info (codes "24") (codes "(GMT-01) Azores, Cape Verde Islands") (codes "-3600")
        (codes "AZOT1")
    ∷ info (codes "50") (codes "(GMT-08) Los Angeles") (codes "-28800") (codes "PST8")
    ∷ info (codes "51") (codes "(GMT+08) Taipei") (codes "28800") (codes "CST-8")
    ∷ []

abbrev pub default_to_empty : Option Bytes → Bytes
default_to_empty none = []
default_to_empty (some t) = t

unfoldable pub get_timezone_string : Bytes → Bytes
unfolding lookup
get_timezone_string k = default_to_empty (lookup k timezone_map)

unfoldable pub is_valid_timezone_id : Bytes → Bool
unfolding lookup
is_valid_timezone_id k = elim (lookup k timezone_map) [ none ↦ false | some t ↦ true ]

unfoldable pub get_default_timezone_id : Bytes
get_default_timezone_id = codes "51"

-- The loop of getTimezoneInfo.
unfoldable pub find_info : Bytes → List TimezoneInfo → Option TimezoneInfo
find_info k [] = none
find_info k (t ∷ ts) = if same_text (TimezoneInfo.id t) k then some t else find_info k ts

abbrev pub or_no_info : Option TimezoneInfo → TimezoneInfo
or_no_info none = info [] [] [] []
or_no_info (some t) = t

unfoldable pub get_timezone_info : Bytes → TimezoneInfo
unfolding find_info
get_timezone_info k = or_no_info (find_info k timezone_infos)

-- The ids with their names; the list is not empty, so that the map is not used.
unfoldable pub get_all_supported_timezones : List (Bytes × Bytes)
get_all_supported_timezones =
    map (λ t. (TimezoneInfo.id t, TimezoneInfo.display_name t)) timezone_infos

abbrev pub to_lower : ℕ → ℕ
to_lower c = if leb b'A' c && leb c b'Z' then c + 32 else c

unfoldable pub starts_with : Bytes → Bytes → Bool
starts_with [] s = true
starts_with (c ∷ p) [] = false
starts_with (c ∷ p) (d ∷ s) = let rest = starts_with p s in if c == d then rest else false

-- `s.find(p) != npos`
unfoldable pub contains : Bytes → Bytes → Bool
unfolding starts_with
contains p [] = is_empty p
contains p (c ∷ s) = let rest = contains p s in if starts_with p (c ∷ s) then true else rest

abbrev pub found : Bytes → Bytes → Bytes
found i d = codes "ID: " ++ i ++ codes " - " ++ d

unfoldable pub search_infos : Bytes → List TimezoneInfo → List Bytes
unfolding contains
search_infos p [] = []
search_infos p (t ∷ ts) =
    let rest = search_infos p ts in
    if contains p (map to_lower (TimezoneInfo.display_name t))
    then found (TimezoneInfo.id t) (TimezoneInfo.display_name t) ∷ rest
    else rest

unfoldable pub search_map : Bytes → Dict Bytes → List Bytes
unfolding contains
search_map p [] = []
search_map p ((k, t) ∷ d) =
    let rest = search_map p d in
    if contains p (map to_lower (codes "timezone " ++ k ++ codes " " ++ t))
    then found k t ∷ rest
    else rest

-- The map is searched if the list has nothing.
unfoldable pub search_timezone_by_name : Bytes → List Bytes
unfolding search_infos search_map
search_timezone_by_name term =
    let p = map to_lower term in
    let results = search_infos p timezone_infos in
    if is_empty results then search_map p timezone_map else results

-- What getTimezoneDetails has to say of an id, without the words around it.
pub data Details : Type 0 where
  unknown : Bytes → Details
  full : Bytes → TimezoneInfo → Details
  basic : Bytes → Bytes → Details

unfoldable pub get_timezone_details : Bytes → Details
unfolding is_valid_timezone_id get_timezone_string get_timezone_info
get_timezone_details k =
    if is_valid_timezone_id k
    then (if is_empty (TimezoneInfo.id (get_timezone_info k))
        then basic k (get_timezone_string k)
        else full k (get_timezone_info k))
    else unknown k
