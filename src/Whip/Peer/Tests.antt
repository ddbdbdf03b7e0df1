-- ===== src/Whip/Peer/Tests.antt =====
-- Peer connections over a library that keeps its codecs in a list.
use webrtc_hls_pipeline.Prelude.{ℕ, ◌≡◌, refl, Option, none, some, List, [], ◌∷◌, ◌++◌}
use webrtc_hls_pipeline.Whip.Peer.{Codec, h264, opus, PionSetup, create_peer_connection}

abbrev setup : Option ℕ → PionSetup (List Codec) ℕ (List Codec)
setup responder = record {
  new_engine = [];
  register_codec = λ c kind cs. some (cs ++ c ∷ []);
  new_responder_interceptor = responder;
  new_peer_connection = λ cs responders servers. some cs;
}

create_peer_connection-codecs : create_peer_connection (setup (some 1)) ≡ some (h264 ∷ opus ∷ [])
unfolding create_peer_connection
create_peer_connection-codecs = refl

create_peer_connection-no_responder : create_peer_connection (setup none) ≡ none
unfolding create_peer_connection
create_peer_connection-no_responder = refl
