-- ===== src/Event/Records.antt =====
-- The records of implement/zwipcsystem/zwsystem_ipc_event_defined.h: the two headers of an event,
-- and the payloads that the publishers send.
use Prim.Native.String.{String}
use ipc_with_cht.Prelude.{ℕ, ◌≡◌, refl, some, List, [], ◌∷◌}
use ipc_with_cht.SystemApi.Layout.{
  Field, field, array, struct, char, uint8, bool, int, uint32, uint64, float, enum, offset_of,
  offset_from,
}
use ipc_with_cht.Event.{event_hdr_size, msg_hdr_size, topic_len, string_len}

abbrev pub event_hdr_record : List Field
event_hdr_record =
    field "szTopic" (array char 32)
    ∷ field "u32SeqId" uint32
    ∷ field "szUtcString" (array char 128)
    ∷ field "u64LocalTimestampNs" uint64
    ∷ field "u64MonoTimestampNs" uint64
    ∷ field "u32MsgSize" uint32
    ∷ []

abbrev pub msg_hdr_record : List Field
msg_hdr_record =
    field "u32FourCC" uint32
    ∷ field "u32HdrSize" uint32
    ∷ field "u8aHdr" (array uint8 128)
    ∷ field "u32PayloadSize" uint32
    ∷ []

abbrev pub event_rec_status_started_record : List Field
event_rec_status_started_record =
    field "u64StartTimeStampMs" uint64 ∷ field "szFilename" (array char 256) ∷ []

abbrev pub event_rec_status_stopped_record : List Field
event_rec_status_stopped_record =
    field "u64StartTimeStampMs" uint64
    ∷ field "szFilename" (array char 256)
    ∷ field "hasRecordFile" bool
    ∷ field "szRecordFilePath" (array char 4096)
    ∷ field "hasSnapshotFile" bool
    ∷ field "szSnapshotFilePath" (array char 4096)
    ∷ field "hasAudioFile" bool
    ∷ field "szAudioFilePath" (array char 4096)
    ∷ []

abbrev pub vsrc_config_record : List Field
vsrc_config_record =
    field "u32MaxWidth" uint32
    ∷ field "u32MaxHeight" uint32
    ∷ field "u32PosX" uint32
    ∷ field "u32PosY" uint32
    ∷ field "u32Width" uint32
    ∷ field "u32Height" uint32
    ∷ []

abbrev pub venc_codec_type_values : List (String × ℕ)
venc_codec_type_values =
    ("eVencCodecType_H264", 0)
    ∷ ("eVencCodecType_H265", 1)
    ∷ ("eVencCodecType_MJPG", 2)
    ∷ ("eVencCodecType_NONE", 9)
    ∷ []

abbrev pub venc_config_record : List Field
venc_config_record =
    field "u32Idx" uint32
    ∷ field "eCodec" (enum venc_codec_type_values)
    ∷ field "u32Width" uint32
    ∷ field "u32Height" uint32
    ∷ field "u32Bitrate" uint32
    ∷ field "fFps" float
    ∷ field "u32Gop" uint32
    ∷ field "u32Qp" uint32
    ∷ field "u32MinIQp" uint32
    ∷ field "u32MaxIQp" uint32
    ∷ field "u32MinPQp" uint32
    ∷ field "u32MaxPQp" uint32
    ∷ field "u32KeepRatio" uint32
    ∷ []

abbrev pub event_vsrc_status_init_done_record : List Field
unfolding struct
event_vsrc_status_init_done_record =
    field "stVsrcConfig" (struct vsrc_config_record)
    ∷ field "u32VencNum" uint32
    ∷ field "stVencConfig" (array (struct venc_config_record) 5)
    ∷ []

abbrev pub default_record : List Field
default_record = field "code" int ∷ []

abbrev pub event_venc_status_started_record : List Field
unfolding struct
event_venc_status_started_record = field "stVencConfig" (struct venc_config_record) ∷ []

-- The offsets and the sizes that the headers are written and read with are those of the records.
event_hdr-layout :
    (offset_of "szTopic" event_hdr_record ≡ some (0, array char topic_len))
    × (offset_of "u32SeqId" event_hdr_record ≡ some (32, uint32))
    × (offset_of "szUtcString" event_hdr_record ≡ some (36, array char string_len))
    × (offset_of "u64LocalTimestampNs" event_hdr_record ≡ some (168, uint64))
    × (offset_of "u64MonoTimestampNs" event_hdr_record ≡ some (176, uint64))
    × (offset_of "u32MsgSize" event_hdr_record ≡ some (184, uint32))
    × ((struct event_hdr_record).size ≡ event_hdr_size)
unfolding struct offset_from
event_hdr-layout = (refl, refl, refl, refl, refl, refl, refl)

msg_hdr-layout :
    (offset_of "u32FourCC" msg_hdr_record ≡ some (0, uint32))
    × (offset_of "u32HdrSize" msg_hdr_record ≡ some (4, uint32))
    × (offset_of "u8aHdr" msg_hdr_record ≡ some (8, array uint8 128))
    × (offset_of "u32PayloadSize" msg_hdr_record ≡ some (136, uint32))
    × ((struct msg_hdr_record).size ≡ msg_hdr_size)
unfolding struct offset_from
msg_hdr-layout = (refl, refl, refl, refl, refl)
