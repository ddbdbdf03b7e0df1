-- ===== src/Text/Paths.antt =====
-- Go's path/filepath on Unix, and `containsDotDot` of net/http, over slash-separated elements.
pub mod Elements
pub mod Cleaning
use webrtc_hls_pipeline.Prelude.{
  ℕ, Bool, true, false, not, ◌&&◌, ◌||◌, List, [], ◌∷◌, ◌++◌, reverse, any, keep_if, if◌then◌else◌,
  ◌==◌,
}
use webrtc_hls_pipeline.Text.{Bytes, codes, bytes_eq, has_prefix, contains, join}

abbrev pub add_to_first : ℕ → List Bytes → List Bytes
add_to_first c [] = (c ∷ []) ∷ []
add_to_first c (e ∷ es) = (c ∷ e) ∷ es

-- The pieces between the bytes that pass a test, empty pieces included.
unfoldable pub split_by : (ℕ → Bool) → Bytes → List Bytes
split_by p [] = [] ∷ []
split_by p (c ∷ s) = let rest = split_by p s in if p c then [] ∷ rest else add_to_first c rest

abbrev pub is_slash : ℕ → Bool
is_slash c = c == b'/'

abbrev pub is_empty : Bytes → Bool
is_empty s = bytes_eq s []

abbrev pub dot : Bytes
dot = b'.' ∷ []

abbrev pub dot_dot : Bytes
dot_dot = b'.' ∷ b'.' ∷ []

-- What `..` does to the elements so far, the last one first.
unfoldable pub pop : Bool → List Bytes → List Bytes
pop rooted [] = if rooted then [] else dot_dot ∷ []
pop rooted (e ∷ es) = if bytes_eq e dot_dot then dot_dot ∷ e ∷ es else es

unfoldable pub push : Bool → Bytes → List Bytes → List Bytes
unfolding pop
push rooted e acc =
    if is_empty e || bytes_eq e dot
    then acc
    else if bytes_eq e dot_dot
    then pop rooted acc
    else e ∷ acc

unfoldable pub push_all : Bool → List Bytes → List Bytes → List Bytes
unfolding push
push_all rooted [] acc = acc
push_all rooted (e ∷ es) acc = push_all rooted es (push rooted e acc)

abbrev pub is_rooted : Bytes → Bool
is_rooted s = has_prefix s (codes "/")

-- The elements of `filepath.Clean(s)`.
unfoldable pub elements : Bytes → List Bytes
unfolding split_by push_all has_prefix
elements s = reverse (push_all (is_rooted s) (split_by is_slash s) [])

unfoldable pub render : Bool → List Bytes → Bytes
unfolding join
render true es = b'/' ∷ join es (codes "/")
render false [] = dot
render false (e ∷ es) = join (e ∷ es) (codes "/")

-- filepath.Clean
unfoldable pub clean : Bytes → Bytes
unfolding elements render
clean s = render (is_rooted s) (elements s)

-- filepath.Join: elements that are empty are ignored at the front.
unfoldable pub join_path : List Bytes → Bytes
unfolding clean
join_path [] = []
join_path (e ∷ es) =
    let rest = join_path es in if is_empty e then rest else clean (join (e ∷ es) (codes "/"))

-- `containsDotDot` of net/http, which `http.ServeFile` asks of the URL's path.
unfoldable pub contains_dot_dot : Bytes → Bool
unfolding contains split_by
contains_dot_dot s =
    contains s dot_dot
    && any (λ e. bytes_eq e dot_dot)
        (keep_if (λ e. not (is_empty e)) (split_by (λ c. c == b'/' || c == b'\\') s))
