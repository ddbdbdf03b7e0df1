-- ===== src/Chat/Connections/Writing.antt =====
-- `writePump` of internal/chat/handler.go.
use webrtc_hls_pipeline.Prelude.{◌≡◌, refl, ap, String, Bool, true, false, List, [], ◌∷◌, ◌++◌}

-- What wakes the `select`: a message of the channel or its end, or the ticker, with whether the
-- write succeeds.
pub data Wake : Type 0 where
  takes : String → (written : Bool) → Wake
  finds_end : Wake
  ticks : (written : Bool) → Wake

-- What the connection writes.
pub data Output : Type 0 where
  text : String → Output
  ping close_frame : Output

unfoldable pub write_pump : List Wake → List Output
write_pump [] = []
write_pump (takes msg true ∷ ws) = text msg ∷ write_pump ws
write_pump (takes msg false ∷ ws) = []
write_pump (finds_end ∷ ws) = close_frame ∷ []
write_pump (ticks true ∷ ws) = ping ∷ write_pump ws
write_pump (ticks false ∷ ws) = []

abbrev pub texts : List Output → List String
texts [] = []
texts (text msg ∷ os) = msg ∷ texts os
texts (ping ∷ os) = texts os
texts (close_frame ∷ os) = texts os

abbrev pub taken : List Wake → List String
taken [] = []
taken (takes msg _ ∷ ws) = msg ∷ taken ws
taken (finds_end ∷ ws) = taken ws
taken (ticks _ ∷ ws) = taken ws

-- The texts that are written are the first messages of the channel, in order.
pub write_pump-prefix :
    (ws : List Wake) → (rest : List String) × (taken ws ≡ texts (write_pump ws) ++ rest)
unfolding write_pump
write_pump-prefix [] = ([], refl)
write_pump-prefix (takes msg true ∷ ws) =
    let (rest, e) = write_pump-prefix ws in (rest, ap (λ ms. msg ∷ ms) e)
write_pump-prefix (takes msg false ∷ ws) = (msg ∷ taken ws, refl)
write_pump-prefix (finds_end ∷ ws) = (taken ws, refl)
write_pump-prefix (ticks true ∷ ws) = write_pump-prefix ws
write_pump-prefix (ticks false ∷ ws) = (taken ws, refl)
