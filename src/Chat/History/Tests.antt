-- ===== src/Chat/History/Tests.antt =====
-- Runs of internal/chat/repository.go.
use webrtc_hls_pipeline.Prelude.{ℕ, ◌≡◌, refl, true, some, List, [], ◌∷◌}
use webrtc_hls_pipeline.Prelude.Int.{negsuc}
use webrtc_hls_pipeline.Text.{codes}
use webrtc_hls_pipeline.Chat.History.{Message, reversed, clamp_limit, query_history, get_history}

history_code : Unit {0}
unfolding reversed get_history query_history clamp_limit
history_code = tt

abbrev said : ℕ → ℕ → Message
said i time = record {
  id = i;
  session_id = 4;
  tenant_id = 1;
  user_id = 2;
  username = codes "ada";
  content = "hello";
  type = "message";
  created_at = time;
}

-- A query whose rows come in the order of the table.
abbrev as_stored : List Message → List Message
as_stored rows = rows

reversed-three : reversed {A = ℕ} (1 ∷ 2 ∷ 3 ∷ []) ≡ some (3 ∷ 2 ∷ 1 ∷ [])
unfolding history_code
reversed-three = refl

get_history-page :
    get_history as_stored true 4 30 (negsuc 4) (said 2 20 ∷ said 1 10 ∷ said 3 30 ∷ [])
    ≡ some (said 1 10 ∷ said 2 20 ∷ [])
unfolding history_code
get_history-page = refl
