-- ===== src/TimeZones/Offsets.antt =====
-- The offsets in the list of time zones against the zone strings, which have the sign of POSIX.
use ipc_with_cht.Prelude.{
  suc, ◌*◌, ◌≡◌, refl, subst, Option, none, some, List, [], ◌∷◌, arith, inl, inr, leb,
  if◌then◌else◌, Bool-cases,
}
use ipc_with_cht.Prelude.Bytes.{Bytes, same_text}
use ipc_with_cht.Prelude.Integers.{ℤ, pos, negsuc, negate, parse_int}
use ipc_with_cht.TimeZones.{TimezoneInfo, timezone_infos, find_info}

-- The hours behind the letters of a zone string.
unfoldable pub hours_text : Bytes → Bytes
hours_text [] = []
hours_text (c ∷ s) = let rest = hours_text s in if leb b'A' c then rest else c ∷ s

-- Hours to the west as seconds to the east.
abbrev pub seconds_east : ℤ → ℤ
seconds_east (pos n) = negate (3600 * n)
seconds_east (negsuc n) = pos (3600 * suc n)

unfoldable pub posix_offset : Bytes → Option ℤ
unfolding hours_text parse_int
posix_offset s = elim (parse_int (hours_text s)) [ none ↦ none | some h ↦ some (seconds_east h) ]

-- The offset is a number, the one that the zone string means.
abbrev IsOffset : TimezoneInfo → Type 0
IsOffset t =
    (s : ℤ) × ((parse_int (TimezoneInfo.base_utc_offset t) ≡ some s)
      × (posix_offset (TimezoneInfo.tz_string t) ≡ some s))

AllOffsets : List TimezoneInfo → Type 0
AllOffsets [] = Unit
AllOffsets (t ∷ ts) = IsOffset t × AllOffsets ts

timezone_infos-AllOffsets : AllOffsets timezone_infos
unfolding AllOffsets posix_offset
timezone_infos-AllOffsets = (
  (pos 3600, (refl, refl)),
  (
    (pos 0, (refl, refl)),
    (
      (pos 3600, (refl, refl)),
      (
        (pos 7200, (refl, refl)),
        (
          (pos 10800, (refl, refl)),
          (
            (pos 14400, (refl, refl)),
            (
              (pos 18000, (refl, refl)),
              (
                (pos 21600, (refl, refl)),
                (
                  (pos 25200, (refl, refl)),
                  (
                    (pos 28800, (refl, refl)),
                    (
                      (pos 32400, (refl, refl)),
                      (
                        (pos 36000, (refl, refl)),
                        (
                          (pos 39600, (refl, refl)),
                          (
                            (pos 43200, (refl, refl)),
                            (
                              (negsuc 39599, (refl, refl)),
                              (
                                (negsuc 35999, (refl, refl)),
                                (
                                  (negsuc 32399, (refl, refl)),
                                  (
                                    (negsuc 28799, (refl, refl)),
                                    (
                                      (negsuc 25199, (refl, refl)),
                                      (
                                        (negsuc 21599, (refl, refl)),
                                        (
                                          (negsuc 17999, (refl, refl)),
                                          (
                                            (negsuc 14399, (refl, refl)),
                                            (
                                              (negsuc 10799, (refl, refl)),
                                              (
                                                (negsuc 7199, (refl, refl)),
                                                (
                                                  (negsuc 3599, (refl, refl)),
                                                  (
                                                    (negsuc 28799, (refl, refl)),
                                                    ((pos 28800, (refl, refl)), tt),
                                                  ),
                                                ),
                                              ),
                                            ),
                                          ),
                                        ),
                                      ),
                                    ),
                                  ),
                                ),
                              ),
                            ),
                          ),
                        ),
                      ),
                    ),
                  ),
                ),
              ),
            ),
          ),
        ),
      ),
    ),
  ),
)

find_info-IsOffset :
    (k : Bytes) (ts : List TimezoneInfo) (t : TimezoneInfo)
    → AllOffsets ts
    → find_info k ts ≡ some t
    → IsOffset t
unfolding AllOffsets find_info
find_info-IsOffset k [] t a h = absurd (ground arith)
find_info-IsOffset k (u ∷ ts) t (o, a) h = elim (Bool-cases (same_text (TimezoneInfo.id u) k)) [
  | inl b ↦ let q : u ≡ t = ground (arith, b, h) in subst IsOffset q o
  | inr b ↦ find_info-IsOffset k ts t a (ground (arith, b, h))
]

-- Each zone of the list has as its offset from UTC the seconds that its zone string stands for, whose
-- hours count to the west.
offsets_agree :
    (k : Bytes) (t : TimezoneInfo)
    → find_info k timezone_infos ≡ some t
    → (s : ℤ) × ((parse_int (TimezoneInfo.base_utc_offset t) ≡ some s)
        × (posix_offset (TimezoneInfo.tz_string t) ≡ some s))
offsets_agree k t h = find_info-IsOffset k timezone_infos t timezone_infos-AllOffsets h
