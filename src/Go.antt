-- ===== src/Go.antt =====
-- Go code that may panic, and the channels that are only ever closed.
use webrtc_hls_pipeline.Prelude.{◌≡◌, refl, Bool, true, false}

pub data Go {ℓ} (A : Type ℓ) : Type ℓ where
  returns : A → Go A
  panics : Go A

infixl 5 ◌>>=◌
abbrev pub ◌>>=◌ {ℓ κ} : {A : Type ℓ} {B : Type κ} → Go A → (A → Go B) → Go B
returns a >>= f = f a
panics >>= f = panics

-- close(ch): closing a closed channel panics.
abbrev pub close_chan : Bool → Go Bool
close_chan true = panics
close_chan false = returns true

pub bind-eq-returns {ℓ κ} :
    {A : Type ℓ} {B : Type κ} (m : Go A) (f : A → Go B) {b : B}
    → (m >>= f) ≡ returns b
    → (a : A) × (m ≡ returns a) × (f a ≡ returns b)
bind-eq-returns (returns a) f h = (a, refl, h)
bind-eq-returns panics f h = cc
