-- ===== src/SystemApi/MediaRecords.antt =====
-- The records of implement/zwsystemInterface/zwsystem_ipc_common.h for the media configuration.
use ipc_with_cht.Prelude.{List, [], ◌∷◌}
use ipc_with_cht.SystemApi.Layout.{Field, field, array, struct, int, uint32, text}

abbrev pub get_media_vsrc_req : List Field
get_media_vsrc_req = field "name" text ∷ []

abbrev pub get_media_vsrc_rep : List Field
get_media_vsrc_rep = field "result" int ∷ field "name" text ∷ []

abbrev pub get_media_venc_req : List Field
get_media_venc_req = field "name" text ∷ []

abbrev pub get_media_venc_rep : List Field
get_media_venc_rep = field "result" int ∷ field "name" text ∷ []

abbrev pub get_media_metadata_req : List Field
get_media_metadata_req = field "name" text ∷ []

abbrev pub get_media_metadata_rep : List Field
get_media_metadata_rep = field "result" int ∷ field "name" text ∷ []

abbrev pub get_all_media_config_req : List Field
get_all_media_config_req = field "name" text ∷ []

abbrev pub get_all_media_config_rep : List Field
unfolding struct
get_all_media_config_rep =
    field "result" int
    ∷ field "u32VsrcCount" uint32
    ∷ field "vsrc" (array (struct get_media_vsrc_rep) 2)
    ∷ field "u32VencCount" uint32
    ∷ field "venc" (array (struct get_media_venc_rep) 5)
    ∷ field "metadata" (array (struct get_media_metadata_rep) 6)
    ∷ []
