-- ===== src/SystemApi/StreamRecords.antt =====
-- The records of implement/zwsystemInterface/zwsystem_ipc_common.h for the streams.
use ipc_with_cht.Prelude.{List, [], ◌∷◌}
use ipc_with_cht.SystemApi.Layout.{Field, field, struct, bool, int, uint32, enum, long, text}
use ipc_with_cht.SystemApi.Enumerations.{
  audio_codec_values, image_quality_mode_values, stream_frame_type_values, video_codec_values,
  video_streaming_type_values,
}

abbrev pub start_video_stream_req : List Field
start_video_stream_req =
    field "streamingType" (enum video_streaming_type_values)
    ∷ field "requestId" text
    ∷ field "frameType" (enum stream_frame_type_values)
    ∷ field "imageQuality" (enum image_quality_mode_values)
    ∷ field "startTime" long
    ∷ []

abbrev pub video_source_info : List Field
video_source_info =
    field "enabled" bool
    ∷ field "codec" (enum video_codec_values)
    ∷ field "width" uint32
    ∷ field "height" uint32
    ∷ field "fps" uint32
    ∷ []

abbrev pub audio_source_info : List Field
audio_source_info =
    field "enabled" bool
    ∷ field "codec" (enum audio_codec_values)
    ∷ field "bitrate" uint32
    ∷ field "sampleRate" uint32
    ∷ field "sdp" text
    ∷ []

abbrev pub start_video_stream_rep : List Field
unfolding struct
start_video_stream_rep =
    field "code" int
    ∷ field "description" text
    ∷ field "requestId" text
    ∷ field "vsrcInfo" (struct video_source_info)
    ∷ field "asrcInfo" (struct audio_source_info)
    ∷ []

abbrev pub stop_video_stream_record : List Field
stop_video_stream_record = field "code" int ∷ field "description" text ∷ field "requestId" text ∷ []

abbrev pub start_audio_stream_req : List Field
unfolding struct
start_audio_stream_req = field "requestId" text ∷ field "asrcInfo" (struct audio_source_info) ∷ []

abbrev pub start_audio_stream_rep : List Field
unfolding struct
start_audio_stream_rep =
    field "code" int
    ∷ field "description" text
    ∷ field "requestId" text
    ∷ field "asrcInfo" (struct audio_source_info)
    ∷ []
