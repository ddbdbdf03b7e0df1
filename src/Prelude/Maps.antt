-- ===== src/Prelude/Maps.antt =====
-- A Go map keyed by a UUID, as the function that looks a key up.
use Prim.Native.Nat.{ℕ}
use mathlib.Core.Path.{◌≡◌}
use mathlib.Core.Logic.{◌≢◌}
use mathlib.Core.Option.{Option, none, some}
use native.Mathlib.Omega.{arith}
use webrtc_hls_pipeline.Prelude.Tests.{if◌then◌else◌, ◌==◌}

abbrev pub Map {ℓ} : Type ℓ → Type ℓ
Map V = ℕ → Option V

module _ {ℓ} {V : Type ℓ} where
  abbrev pub empty : Map V
  empty j = none

  -- m[k] = v
  abbrev pub insert : ℕ → V → Map V → Map V
  insert k v m j = if k == j then some v else m j

  -- delete(m, k)
  abbrev pub delete : ℕ → Map V → Map V
  delete k m j = if k == j then none else m j

  -- A heap cell is written; every address has a value.
  abbrev pub store : ℕ → V → (ℕ → V) → ℕ → V
  store a v h b = if a == b then v else h b

  pub insert_self : (k : ℕ) (v : V) (m : Map V) → insert k v m k ≡ some v
  insert_self k v m = ground arith

  pub insert_ne : (k j : ℕ) (v : V) (m : Map V) → k ≢ j → insert k v m j ≡ m j
  insert_ne k j v m h = ground arith
