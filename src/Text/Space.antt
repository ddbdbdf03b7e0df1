-- ===== src/Text/Space.antt =====
-- bytes.TrimSpace: Unicode white space in UTF-8 is cut off at both ends.
use webrtc_hls_pipeline.Prelude.{
  ℕ, zero, suc, ◌≡◌, refl, Bool, ◌&&◌, ◌||◌, [], ◌∷◌, reverse, length, drop, leb, if◌then◌else◌,
  ◌==◌,
}
use webrtc_hls_pipeline.Text.{Bytes}

-- '\t', '\n', '\v', '\f', '\r' and ' '
abbrev is_ascii_space : ℕ → Bool
is_ascii_space c = (leb 9 c && leb c 13) || c == 32

-- U+0085 and U+00A0
abbrev is_space_2 : ℕ → ℕ → Bool
is_space_2 a b = a == 0xc2 && (b == 0x85 || b == 0xa0)

-- U+1680, U+2000 to U+200A, U+2028, U+2029, U+202F, U+205F and U+3000
abbrev is_space_3 : ℕ → ℕ → ℕ → Bool
is_space_3 a b c =
    (a == 0xe1 && b == 0x9a && c == 0x80)
    || (a == 0xe2 && b == 0x80 && (leb 0x80 c && leb c 0x8a || c == 0xa8 || c == 0xa9 || c == 0xaf))
    || (a == 0xe2 && b == 0x81 && c == 0x9f)
    || (a == 0xe3 && b == 0x80 && c == 0x80)

-- The width of the white space that a text begins with, 0 if there is none.
abbrev leading : Bytes → ℕ
leading [] = 0
leading (a ∷ []) = if is_ascii_space a then 1 else 0
leading (a ∷ b ∷ []) = if is_ascii_space a then 1 else if is_space_2 a b then 2 else 0
leading (a ∷ b ∷ c ∷ _) =
    if is_ascii_space a then 1 else if is_space_2 a b then 2 else if is_space_3 a b c then 3 else 0

-- The same for a text that is read from its end.
abbrev trailing : Bytes → ℕ
trailing [] = 0
trailing (a ∷ []) = if is_ascii_space a then 1 else 0
trailing (a ∷ b ∷ []) = if is_ascii_space a then 1 else if is_space_2 b a then 2 else 0
trailing (a ∷ b ∷ c ∷ _) =
    if is_ascii_space a then 1 else if is_space_2 b a then 2 else if is_space_3 c b a then 3 else 0

-- Cuts while there is something to cut; the length of the text is fuel enough.
cut : (Bytes → ℕ) → ℕ → Bytes → Bytes
cut width zero s = s
cut width (suc n) s = let rest = cut width n (drop (width s) s) in if width s == 0 then s else rest

unfoldable pub trim_space : Bytes → Bytes
unfolding cut
trim_space s = let t = cut leading (length s) s in reverse (cut trailing (length t) (reverse t))

trimmed : trim_space (32 ∷ 9 ∷ 104 ∷ 32 ∷ 105 ∷ 0xc2 ∷ 0xa0 ∷ 13 ∷ 10 ∷ []) ≡ 104 ∷ 32 ∷ 105 ∷ []
unfolding trim_space
trimmed = refl

blank : trim_space (32 ∷ 0xe2 ∷ 0x80 ∷ 0xa8 ∷ 10 ∷ []) ≡ []
unfolding trim_space
blank = refl
