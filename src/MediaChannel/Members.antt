-- ===== src/MediaChannel/Members.antt =====
-- src/media-channel.c: members of a call who are added and removed, and what a channel tells of itself.
-- `is_local_pending`: the user is among the mixin's local pending members. The answer is an error, or
-- that the member is added.
use telepathy_haze.MediaChannel.{
  does, not_available, change_members, accept, Channel, hangup, stream_info, Error, remove_can_add,
}
use telepathy_haze.MediaChannel.Session.{close}
use telepathy_haze.Prelude.{
  false, some, String, Bool, ◌==◌, Option, not, ℕ, ◌∷◌, if◌then◌else◌, ◌&&◌, true, none, [],
}
use telepathy_haze.Telepathy.{Handles}

unfoldable pub add_member : Bool → Channel → ℕ → Channel × Option Error
add_member is_local_pending C handle =
    let invited =
      does
        (does C (
          change_members (record {
            add = [];
            del = [];
            add_local_pending = [];
            add_remote_pending = handle ∷ [];
            actor = C.self_handle;
          })))
        remove_can_add in
    let answered =
      does
        (does C (
          change_members (record {
            add = handle ∷ [];
            del = [];
            add_local_pending = [];
            add_remote_pending = [];
            actor = handle;
          })))
        (stream_info accept true) in
    if C.creator == C.self_handle
    then (if C.has_media && not (C.initial_peer == handle)
        then (C, some not_available)
        else (invited, none))
    else if C.has_media && (handle == C.self_handle) && is_local_pending
    then (if C.hold_state == 0 then (answered, none) else (C, some not_available))
    else (C, some not_available)

-- TpChannelGroupChangeReason, as far as the code tells them apart: NONE, OFFLINE, BUSY, ERROR and
-- NO_ANSWER end a call.
pub data Reason : Type 0 where
  ends_call other_reason : Reason

-- The switch over the reasons, in a call that has a session; the answer is whether the member is
-- removed.
unfoldable pub end_call : Channel → Reason → Channel × Bool
end_call C ends_call = (does (does C (stream_info hangup true)) remove_can_add, true)
end_call C other_reason = (C, false)

-- `none` is the failed assertion.
unfoldable pub remove_member : Channel → ℕ → Reason → Option (Channel × Bool)
unfolding close end_call
remove_member C handle reason =
    let ended = end_call C reason in
    if not (handle == C.self_handle)
    then none
    else some (if C.has_media then ended else (does (close C) remove_can_add, true))

-- TP_HANDLE_TYPE_NONE and TP_HANDLE_TYPE_CONTACT are 0 and 1.
unfoldable pub get_handle : Channel → ℕ × ℕ
get_handle C = if C.initial_peer == 0 then (0, 0) else (1, C.initial_peer)

-- The properties of the object that depend on its state.
pub record Properties : Type 0 where
  pub handle_type : ℕ
  pub handle : ℕ
  pub target_id : String
  pub creator_id : String
  pub is_requested : Bool
  pub is_destroyed : Bool
  pub has_initial_audio : Bool
  pub has_initial_video : Bool

unfoldable pub get_property : Handles → Channel → Properties
get_property R C = record {
  handle_type = if C.initial_peer == 0 then 0 else 1;
  handle = C.initial_peer;
  target_id = if C.initial_peer == 0 then "" else R.inspect C.initial_peer;
  creator_id = R.inspect C.creator;
  is_requested = C.creator == C.self_handle;
  is_destroyed = C.closed;
  has_initial_audio = C.initial_audio;
  has_initial_video = C.initial_video;
}
