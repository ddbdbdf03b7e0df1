-- ===== src/Text.antt =====
-- Byte strings, and what the program uses of Go's packages `strings` and `bytes`.
pub mod Laws
pub mod Space
pub mod Paths
pub mod Order
use Prim.Native.Char.{code}
use webrtc_hls_pipeline.Prelude.{
  ℕ, suc, ◌-◌, String, Bool, true, false, ◌&&◌, ◌||◌, Option, none, some, List, [], ◌∷◌, ◌++◌,
  reverse, length, drop, leb, if◌then◌else◌, ◌==◌,
}

abbrev pub Bytes : Type 0
Bytes = List ℕ

-- The bytes of an ASCII text.
abbrev pub codes : String → Bytes
codes String.[] = []
codes (String.◌∷◌ c s) = code c ∷ codes s

abbrev pub bytes_eq : Bytes → Bytes → Bool
bytes_eq [] [] = true
bytes_eq [] (y ∷ ys) = false
bytes_eq (x ∷ xs) [] = false
bytes_eq (x ∷ xs) (y ∷ ys) = x == y && bytes_eq xs ys

-- strings.HasPrefix(s, p)
unfoldable pub has_prefix : Bytes → Bytes → Bool
has_prefix s [] = true
has_prefix [] (y ∷ ys) = false
has_prefix (x ∷ xs) (y ∷ ys) = x == y && has_prefix xs ys

-- strings.HasSuffix(s, p)
unfoldable pub has_suffix : Bytes → Bytes → Bool
has_suffix s p = leb (length p) (length s) && bytes_eq (drop (length s - length p) s) p

-- strings.Contains(s, p)
unfoldable pub contains : Bytes → Bytes → Bool
unfolding has_prefix
contains [] p = has_prefix [] p
contains (x ∷ xs) p = has_prefix (x ∷ xs) p || contains xs p

-- The part before the line breaks that end a text; `none` if it is made of line breaks alone.
strip_breaks : Bytes → Option Bytes
strip_breaks [] = none
strip_breaks (x ∷ xs) = elim (strip_breaks xs) [
  | some r ↦ some (x ∷ r)
  | none ↦ if x == b'\n' then none else some (x ∷ [])
]

-- strings.TrimRight(s, "\n")
unfoldable pub trim_right_breaks : Bytes → Bytes
unfolding strip_breaks
trim_right_breaks s = elim (strip_breaks s) [ none ↦ [] | some r ↦ r ]

-- strings.CutPrefix(s, p)
unfoldable pub cut_prefix : Bytes → Bytes → Option Bytes
unfolding has_prefix
cut_prefix s p = if has_prefix s p then some (drop (length p) s) else none

-- strings.Join(parts, sep)
unfoldable pub join : List Bytes → Bytes → Bytes
join [] sep = []
join (s ∷ []) sep = s
join (s ∷ t ∷ rest) sep = s ++ (sep ++ join (t ∷ rest) sep)
