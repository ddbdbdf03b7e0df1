-- ===== src/Whip/Peer.antt =====
-- `createPeerConnection` of internal/whip/handler.go. The calls of pion are the record `PionSetup`;
-- `none` is an error of one of them.
mod Tests
use webrtc_hls_pipeline.Prelude.{
  ℕ, String, Bool, true, false, Option, none, some, List, [], ◌∷◌, if◌then◌else◌, is_some,
}
use webrtc_hls_pipeline.Whip.Tracks.{Kind, video, audio}
use webrtc_hls_pipeline.Whip.Handler.{Pion}

pub record Codec : Type 0 where
  pub mime_type : String
  pub clock_rate : ℕ
  pub channels : ℕ
  pub sdp_fmtp_line : String
  pub payload_type : ℕ

abbrev pub h264 : Codec
h264 = record {
  mime_type = "video/H264";
  clock_rate = 90000;
  channels = 0;
  sdp_fmtp_line = "level-asymmetry-allowed=1;packetization-mode=1;profile-level-id=42001f";
  payload_type = 96;
}

abbrev pub opus : Codec
opus = record {
  mime_type = "audio/opus";
  clock_rate = 48000;
  channels = 2;
  sdp_fmtp_line = "";
  payload_type = 111;
}

-- pion with an engine, a responder, an interceptor registry and a peer connection of its own types.
pub record PionSetup (Engine Responder Peer : Type 0) : Type 0 where
  pub new_engine : Engine
  pub register_codec : Codec → Kind → Engine → Option Engine
  pub new_responder_interceptor : Option Responder
  pub new_peer_connection : Engine → List Responder → List String → Option Peer

infixl 5 ◌>>?◌
abbrev pub ◌>>?◌ : {A B : Type 0} → Option A → (A → Option B) → Option B
none >>? f = none
some a >>? f = f a

unfoldable pub create_peer_connection :
    {Engine Responder Peer : Type 0} → PionSetup Engine Responder Peer → Option Peer
create_peer_connection pion = pion.register_codec h264 video pion.new_engine >>? λ m.
    pion.register_codec opus audio m >>? λ m'. pion.new_responder_interceptor >>? λ responder.
    pion.new_peer_connection m' (responder ∷ []) ("stun:stun.l.google.com:19302" ∷ [])

-- pion as `HandleWHIP` meets it, with what it answers after the peer connection was made.
unfoldable pub pion_of :
    {Engine Responder Peer : Type 0} → PionSetup Engine Responder Peer → Pion → Pion
unfolding create_peer_connection
pion_of setup pion = record pion { new_peer_connection = is_some (create_peer_connection setup) }
