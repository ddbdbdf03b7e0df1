-- ===== src/Hls/Vod.antt =====
-- internal/hls/vod.go, over the entries of the session's directory.
pub mod Marking
mod Tests
use webrtc_hls_pipeline.Prelude.{
  Bool, true, false, not, ◌||◌, Option, none, some, List, [], ◌∷◌, ◌++◌, if◌then◌else◌,
}
use webrtc_hls_pipeline.Text.{Bytes, codes, bytes_eq, has_suffix, contains, trim_right_breaks}

-- An entry with what the operating system answers: whether it can be read, and what a write that
-- fails leaves in the file (`none` is a write that succeeds).
pub record Entry : Type 0 where
  pub name : Bytes
  pub content : Bytes
  pub readable : Bool
  pub write_fails : Option Bytes

abbrev pub end_list : Bytes
end_list = codes "#EXT-X-ENDLIST"

-- The playlists that the loop does not skip.
abbrev pub is_variant : Bytes → Bool
is_variant name = not (not (has_suffix name (codes ".m3u8")) || bytes_eq name (codes "master.m3u8"))

unfoldable pub ended_content : Bytes → Bytes
unfolding trim_right_breaks
ended_content content = trim_right_breaks content ++ (b'\n' ∷ []) ++ end_list ++ b'\n' ∷ []

unfoldable pub write_file : Bytes → Entry → Entry
write_file content e = elim e.write_fails [
  | none ↦ record e { content = content }
  | some left ↦ record e { content = left }
]

-- One round of the loop.
unfoldable pub mark_entry : Entry → Entry
unfolding write_file
mark_entry e =
    if not (is_variant e.name)
    then e
    else if not e.readable
    then e
    else if contains e.content end_list
    then e
    else write_file (ended_content e.content) e

unfoldable pub mark_entries : List Entry → List Entry
unfolding mark_entry
mark_entries [] = []
mark_entries (e ∷ es) = mark_entry e ∷ mark_entries es

-- `MarkAsVOD`: the entries afterwards and whether there was no error; `none` is a directory that
-- cannot be read.
unfoldable pub mark_as_vod : Option (List Entry) → Option (List Entry) × Bool
unfolding mark_entries
mark_as_vod none = (none, false)
mark_as_vod (some es) = (some (mark_entries es), true)
