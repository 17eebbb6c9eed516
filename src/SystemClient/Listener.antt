-- ===== src/SystemClient/Listener.antt =====
-- ZwsystemSubListener::onMessage of implement/zwsystemInterface/zwsystem_ipc_client.cpp, with
-- stZwsystemSubMsg of zwsystem_ipc_defined.h: the system events that reach the client's callback.
use ipc_with_cht.Prelude.{
  ℕ, suc, zero, ◌≡◌, ◌≢◌, ◌+◌, refl, Bool, true, false, ◌&&◌, Option, none, some, [], ◌∷◌, ◌==◌,
  ltb, leb, length, if◌then◌else◌, arith,
}
use ipc_with_cht.Prelude.Bytes.{Bytes, load}
use ipc_with_cht.Prelude.Memory.{load_within}
use ipc_with_cht.Prelude.Text.{codes}
use ipc_with_cht.SystemClient.{hdr_size, fourcc}

-- eZwsystemSubSystemEventType
pub data EventType : Type 0 where
  unknown_event snapshot_event record_event recognition_event status_event : EventType

-- ZWSYSTEM_SUBSCRIBE_PREFIX_LEN
abbrev pub prefix_len : ℕ
prefix_len = 6

-- Whether `strncmp` gives a number other than 0 for at most the first `n` bytes.
unfoldable pub strncmp : ℕ → Bytes → Bytes → Bool
strncmp zero s t = false
strncmp (suc n) [] [] = false
strncmp (suc n) [] (b ∷ t) = true
strncmp (suc n) (a ∷ s) [] = true
strncmp (suc n) (a ∷ s) (b ∷ t) =
    let rest = strncmp n s t in if a == b then (if a == 0 then false else rest) else true

-- The chain of comparisons, on the bytes from the prefix on.
unfoldable pub classify : Bytes → EventType
unfolding strncmp
classify prefix =
    if strncmp prefix_len prefix (codes "SNAPSH")
    then snapshot_event
    else (if strncmp prefix_len prefix (codes "RECORD")
        then record_event
        else (if strncmp prefix_len prefix (codes "RECOGN")
            then recognition_event
            else (if strncmp prefix_len prefix (codes "STATUS")
                then status_event
                else unknown_event)))

-- The header lies behind the prefix at 8, a multiple of its alignment: its code at 8, the number of
-- its headers at 12, and its result at 24. The outer `none` is a read outside the data, the inner
-- one a message that is passed over.
on_hdr : Option ℕ → Option ℕ → Option ℕ → Bytes → Option (Option EventType)
on_hdr (some four_cc) (some size) (some result) d =
    if (four_cc == fourcc) && leb 3 size
    then (if result == 0 then some (some (classify d)) else some none)
    else some none
on_hdr _ _ _ d = none

-- The type that the callback is given with the data; a null pointer is `none`.
unfoldable pub on_message : Option Bytes → Option (Option EventType)
unfolding on_hdr classify
on_message none = some none
on_message (some d) =
    if ltb (length d) (prefix_len + hdr_size)
    then some none
    else on_hdr (load 8 4 d) (load 12 4 d) (load 24 2 d) d

-- Whatever data arrive, the listener reads no field of the header outside them.
pub on_message_total : (d : Option Bytes) → on_message d ≢ none
unfolding on_message
on_message_total none e = cc
on_message_total (some d) e =
    ground (arith, load_within 8 4 d, load_within 12 4 d, load_within 24 2 d)

snapshot_is_no_record :
    (d : Bytes)
    → strncmp prefix_len d (codes "SNAPSH") ≡ false
    → strncmp prefix_len d (codes "RECORD") ≡ true
unfolding strncmp
snapshot_is_no_record [] h = refl
snapshot_is_no_record (b ∷ bs) h = ground arith

classify_inverted :
    (d : Bytes)
    → classify d ≡ (if strncmp prefix_len d (codes "SNAPSH") then snapshot_event else record_event)
unfolding classify
classify_inverted d = ground (arith, snapshot_is_no_record d)

-- The callback gets every event whose prefix differs from SNAPSH as a snapshot, and every event
-- with this prefix as a record: no recognition or status event reaches it under its own type.
pub on_message_inverted :
    (d : Bytes) (e : EventType)
    → on_message (some d) ≡ some (some e)
    → e ≡ (if strncmp prefix_len d (codes "SNAPSH") then snapshot_event else record_event)
unfolding on_message
on_message_inverted d e h = ground (arith, classify_inverted d)
