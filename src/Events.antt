-- ===== src/Events.antt =====
-- internal/events/publisher.go. The payload of every event is a map of strings, which always
-- marshals; what reaches Redis is kept in the order of publication, and a failure is only logged.
use webrtc_hls_pipeline.Prelude.{ℕ, String, Bool, List, [], ◌∷◌, ◌++◌, if◌then◌else◌}

-- The three channels, with the fields of their payloads.
pub data Event : Type 0 where
  stream_started : (session_id tenant_id teacher_id : ℕ) → Event
  stream_ended : (session_id tenant_id : ℕ) → Event
  recording_ready : (session_id tenant_id : ℕ) → (mp4_url : String) → Event

unfoldable pub publish : Bool → Event → List Event → List Event
publish redis_up e log = if redis_up then log ++ e ∷ [] else log
