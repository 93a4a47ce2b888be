-- ===== src/MediaChannel/Calls.antt =====
-- src/media-channel.c: any calls on a channel, of libpurple and of clients.
-- A request names its callbacks by their context; what it asks for is `asked` of that.
use telepathy_haze.MediaChannel.{Channel, Info, Stream}
use telepathy_haze.MediaChannel.Members.{remove_member, Reason, add_member}
use telepathy_haze.MediaChannel.Removal.{remove_streams}
use telepathy_haze.MediaChannel.Requests.{deliver, media_channel_request_streams, init_media, Event}
use telepathy_haze.MediaChannel.Session.{
  media_state_changed_cb, close, Outside, MediaState, media_stream_info_cb, dispose,
}
use telepathy_haze.Prelude.{for_each, ◌>>=◌, List, some, ℕ, Option, if◌then◌else◌, Bool, String}

pub data Call : Type 0 where
  requests : ℕ → ℕ → Call
  tells_media : Bool → ℕ → Call
  tells_state : MediaState → Option String → Option String → Call
  tells_info : Bool → Info → Option String → Option String → Bool → Call
  closes disposes : Call
  adds_member : Bool → ℕ → Call
  removes_member : ℕ → Reason → Call
  removes_streams : List Stream → List ℕ → Call

module _ (B : Outside) (media_caps : ℕ) (initiated : ℕ → List Event × Bool)
    (asked : ℕ → List ℕ) where
  unfoldable pub step : Channel → Call → Option Channel
  unfolding media_channel_request_streams deliver media_state_changed_cb media_stream_info_cb close
      dispose add_member remove_member remove_streams
  step C (requests contact context) =
      media_channel_request_streams B media_caps initiated C contact (asked context) context
  step C (tells_media is_account contact) =
      deliver B media_caps initiated C (init_media is_account contact)
  step C (tells_state state sid name) =
      let r = media_state_changed_cb B C state sid name in if C.has_media then r else some C
  step C (tells_info is_initiator info sid name local) =
      let r = media_stream_info_cb B C is_initiator info sid name local in
      if C.has_media then r else some C
  step C closes = some (close C)
  step C disposes = dispose C
  step C (adds_member is_local_pending h) = some (add_member is_local_pending C h).0
  step C (removes_member h reason) = remove_member C h reason >>= λ r. some r.0
  step C (removes_streams streams ids) = remove_streams media_caps streams C ids >>= λ r. some r.0

  unfoldable pub run : Channel → List Call → Option Channel
  unfolding step
  run = for_each step
