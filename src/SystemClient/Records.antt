-- ===== src/SystemClient/Records.antt =====
-- The records of implement/zwsystemInterface/zwsystem_ipc_defined.h: the header of a request or a
-- reply, and the messages that start with it.
use ipc_with_cht.Prelude.{◌≡◌, refl, some, List, [], ◌∷◌}
use ipc_with_cht.SystemApi.Layout.{
  Field, field, array, struct, char, uint16, uint32, pointer, offset_of, offset_from,
}
use ipc_with_cht.SystemClient.{hdr_size, msg_size}
use ipc_with_cht.SystemClient.Listener.{prefix_len}

abbrev pub ipc_hdr_record : List Field
ipc_hdr_record =
    field "u32FourCC" uint32
    ∷ field "u32HdrSize" uint32
    ∷ field "u32PayloadSize" uint32
    ∷ field "u16Headers" (array uint16 32)
    ∷ []

abbrev pub ipc_msg_record : List Field
unfolding struct
ipc_msg_record = field "stHdr" (struct ipc_hdr_record) ∷ field "pu8Payload" pointer ∷ []

abbrev pub sub_hdr_record : List Field
sub_hdr_record = field "u8eventPrefix" (array char prefix_len) ∷ []

abbrev pub sub_msg_record : List Field
unfolding struct
sub_msg_record =
    field "stSubHdr" (struct sub_hdr_record)
    ∷ field "stHdr" (struct ipc_hdr_record)
    ∷ field "pu8Payload" pointer
    ∷ []

-- The offsets and the sizes that the messages are written and read with are those of the records.
ipc_msg-layout :
    (offset_of "u32HdrSize" ipc_hdr_record ≡ some (4, uint32))
    × (offset_of "u32PayloadSize" ipc_hdr_record ≡ some (8, uint32))
    × (offset_of "u16Headers" ipc_hdr_record ≡ some (12, array uint16 32))
    × ((struct ipc_hdr_record).size ≡ hdr_size)
    × (offset_of "pu8Payload" ipc_msg_record ≡ some (80, pointer))
    × ((struct ipc_msg_record).size ≡ msg_size)
    × (offset_of "stHdr" sub_msg_record ≡ some (8, struct ipc_hdr_record))
unfolding struct offset_from
ipc_msg-layout = (refl, refl, refl, refl, refl, refl, refl)
