-- ===== src/Event/Topics.antt =====
-- The topics of implement/zwipcsystem/zwsystem_ipc_event_defined.h, and the prefixes to subscribe to.
use ipc_with_cht.Prelude.{
  ℕ, ◌+◌, ◌^◌, ◌<◌, ◌≡◌, refl, Bool, true, false, some, [], ◌∷◌, ◌==◌, length, take, if◌then◌else◌,
  arith, ltb, ltb→lt, inl, inr, Bool-cases,
}
use ipc_with_cht.Prelude.Bytes.{Bytes}
use ipc_with_cht.Prelude.Memory.{IsText}
use ipc_with_cht.Prelude.Text.{codes}
use ipc_with_cht.Event.{event_hdr_size, msg_hdr_size, topic_len, Clock, accepted, check_event}
use ipc_with_cht.Event.Wire.{event_bytes, published_accepted}

pub data Topic : Type 0 where
  rec_status_started rec_status_stopped rec_status_config_changed rec_error : Topic
  vsrc_status_init_done vsrc_status_closing vsrc_error : Topic
  venc_status_started venc_status_stopped venc_status_config_changed venc_error : Topic
  stor_status stor_error : Topic

unfoldable pub topic_name : Topic → Bytes
topic_name rec_status_started = codes "rec.status.started"
topic_name rec_status_stopped = codes "rec.status.stopped"
topic_name rec_status_config_changed = codes "rec.status.config_changed"
topic_name rec_error = codes "rec.error"
topic_name vsrc_status_init_done = codes "vsrc.status.init_done"
topic_name vsrc_status_closing = codes "vsrc.status.closing"
topic_name vsrc_error = codes "vsrc.error"
topic_name venc_status_started = codes "venc.status.started"
topic_name venc_status_stopped = codes "venc.status.stopped"
topic_name venc_status_config_changed = codes "venc.status.config_changed"
topic_name venc_error = codes "venc.error"
topic_name stor_status = codes "stor.status"
topic_name stor_error = codes "stor.error"

-- The prefix of all topics of the same source.
unfoldable pub source_prefix : Topic → Bytes
source_prefix rec_status_started = codes "rec."
source_prefix rec_status_stopped = codes "rec."
source_prefix rec_status_config_changed = codes "rec."
source_prefix rec_error = codes "rec."
source_prefix vsrc_status_init_done = codes "vsrc."
source_prefix vsrc_status_closing = codes "vsrc."
source_prefix vsrc_error = codes "vsrc."
source_prefix venc_status_started = codes "venc."
source_prefix venc_status_stopped = codes "venc."
source_prefix venc_status_config_changed = codes "venc."
source_prefix venc_error = codes "venc."
source_prefix stor_status = codes "stor."
source_prefix stor_error = codes "stor."

no_zero : Bytes → Bool
no_zero [] = true
no_zero (b ∷ bs) = if b == 0 then false else no_zero bs

no_zero-IsText : (bs : Bytes) → no_zero bs ≡ true → IsText bs
unfolding no_zero
no_zero-IsText [] h = tt
no_zero-IsText (b ∷ bs) h = elim (Bool-cases (b == 0)) [
  | inl zeroed ↦ absurd (ground arith)
  | inr other ↦ (ground arith, no_zero-IsText bs (ground arith))
]

-- The name holds no 0, has room for one behind it in the header's field, and starts with the
-- prefix of its source.
pub record IsTopic (t : Topic) : Type 0 where
  pub is_text : IsText (topic_name t)
  pub fits : length (topic_name t) < topic_len
  pub prefixed : take (length (source_prefix t)) (topic_name t) ≡ source_prefix t

is_topic :
    {t : Topic}
    → no_zero (topic_name t) ≡ true
    → ltb (length (topic_name t)) topic_len ≡ true
    → take (length (source_prefix t)) (topic_name t) ≡ source_prefix t
    → IsTopic t
is_topic z l p = record { is_text = no_zero-IsText _ z; fits = ltb→lt _ _ l; prefixed = p }

pub topic_name-IsTopic : (t : Topic) → IsTopic t
unfolding topic_name source_prefix no_zero
topic_name-IsTopic rec_status_started = is_topic refl refl refl
topic_name-IsTopic rec_status_stopped = is_topic refl refl refl
topic_name-IsTopic rec_status_config_changed = is_topic refl refl refl
topic_name-IsTopic rec_error = is_topic refl refl refl
topic_name-IsTopic vsrc_status_init_done = is_topic refl refl refl
topic_name-IsTopic vsrc_status_closing = is_topic refl refl refl
topic_name-IsTopic vsrc_error = is_topic refl refl refl
topic_name-IsTopic venc_status_started = is_topic refl refl refl
topic_name-IsTopic venc_status_stopped = is_topic refl refl refl
topic_name-IsTopic venc_status_config_changed = is_topic refl refl refl
topic_name-IsTopic venc_error = is_topic refl refl refl
topic_name-IsTopic stor_status = is_topic refl refl refl
topic_name-IsTopic stor_error = is_topic refl refl refl

-- An event that is published on one of the defined topics, with headers of their sizes and a payload
-- that keeps the message below 4 GiB, is accepted by a receiver that asks for the topic, and its
-- name starts with the prefix of the topic's source, by which a subscriber gets it.
pub defined_topics_accepted :
    (t : Topic) (stack stack' : Bytes) (seq : ℕ) (c : Clock) (payload : Bytes)
    → length stack ≡ event_hdr_size
    → length stack' ≡ msg_hdr_size
    → length payload + event_hdr_size + msg_hdr_size < 2 ^ 32
    → (check_event
          (some (topic_name t))
          (some (event_bytes stack stack' (topic_name t) seq c payload))
        ≡ some (accepted payload (length payload)))
      × (take (length (source_prefix t)) (topic_name t) ≡ source_prefix t)
defined_topics_accepted t stack stack' seq c payload h h' fits =
    let is = topic_name-IsTopic t in
    (
      published_accepted stack stack' (topic_name t) seq c payload h h' is.is_text fits is.fits,
      is.prefixed,
    )
