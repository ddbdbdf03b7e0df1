-- ===== src/Hls/Vod/Marking.antt =====
-- What `MarkAsVOD` of internal/hls/vod.go does to the playlists.
use mathlib.Core.Option
use mathlib.Core.List.{append_assoc}
use webrtc_hls_pipeline.Prelude.{
  ℕ, zero, suc, ◌≡◌, refl, ap, ◌∙◌, get_elem?, ◌&&◌, Bool, true, false, not, none, some, List, [],
  ◌∷◌, ◌++◌, arith, All, if◌then◌else◌,
}
use webrtc_hls_pipeline.Text.{Bytes, codes, contains, trim_right_breaks}
use webrtc_hls_pipeline.Text.Laws.{contains-append, trim_right_breaks_lem}
use webrtc_hls_pipeline.Hls.Vod.{
  Entry, end_list, is_variant, ended_content, mark_entry, mark_entries, mark_as_vod,
}

contains-ended_content : (c : Bytes) → contains (ended_content c) end_list ≡ true
unfolding ended_content
contains-ended_content c = contains-append (trim_right_breaks c ++ b'\n' ∷ []) end_list (b'\n' ∷ [])

-- The entries that the loop rewrites.
abbrev pub is_rewritten : Entry → Bool
is_rewritten e = is_variant e.name && e.readable && not (contains e.content end_list)

mark_entry_other : (e : Entry) → is_rewritten e ≡ false → mark_entry e ≡ e
unfolding mark_entry
mark_entry_other e h = ground arith

mark_entry_idempotent :
    (e : Entry) → e.write_fails ≡ none → mark_entry (mark_entry e) ≡ mark_entry e
unfolding mark_entry
mark_entry_idempotent e w = ground (arith, contains-ended_content e.content)

get_elem?-mark_entries :
    (i : ℕ) (es : List Entry)
    → get_elem? (mark_entries es) i ≡ Option.map mark_entry (get_elem? es i)
unfolding mark_entries
get_elem?-mark_entries i [] = refl
get_elem?-mark_entries zero (e ∷ es) = refl
get_elem?-mark_entries (suc i) (e ∷ es) = get_elem?-mark_entries i es

-- `MarkAsVOD` leaves each entry alone that is no variant playlist, cannot be read or is marked
-- already.
mark_as_vod_other :
    (es : List Entry) (i : ℕ) (e : Entry)
    → get_elem? es i ≡ some e
    → is_rewritten e ≡ false
    → get_elem? (mark_entries es) i ≡ some e
mark_as_vod_other es i e k h =
    get_elem?-mark_entries i es ∙ ap (Option.map mark_entry) k ∙ ap some (mark_entry_other e h)

-- A playlist `e'` made from `e`: it has the end marker; if `e` had none, it is `e` less some line
-- breaks at its end, with a line that holds the marker.
pub record IsEnded (e e' : Entry) : Type 0 where
  pub kept : Bytes
  pub breaks : Bytes
  pub name : e'.name ≡ e.name
  pub marker : contains e'.content end_list ≡ true
  pub old : e.content ≡ kept ++ breaks
  pub only_breaks : All (λ c. c ≡ b'\n') breaks
  pub content :
      e'.content
      ≡ (if contains e.content end_list then e.content else kept ++ codes "\n#EXT-X-ENDLIST\n")

ended_content_lem :
    (c : Bytes) → ended_content c ≡ trim_right_breaks c ++ codes "\n#EXT-X-ENDLIST\n"
unfolding ended_content
ended_content_lem c =
    rw (append_assoc (trim_right_breaks c ++ b'\n' ∷ []) end_list (b'\n' ∷ []))
      (append_assoc (trim_right_breaks c) (b'\n' ∷ []) (end_list ++ b'\n' ∷ []))

mark_entry-IsEnded :
    (e : Entry)
    → is_variant e.name ≡ true
    → e.readable ≡ true
    → e.write_fails ≡ none
    → IsEnded e (mark_entry e)
unfolding mark_entry
mark_entry-IsEnded e v r w =
    let (breaks, old, only) = trim_right_breaks_lem e.content in
    record {
      kept = trim_right_breaks e.content;
      breaks = breaks;
      name = ground arith;
      marker = ground (arith, contains-ended_content e.content);
      old = old;
      only_breaks = only;
      content = ground (arith, ended_content_lem e.content);
    }

-- A variant playlist that can be read and written has its end marked afterwards.
pub mark_entries-IsEnded :
    (es : List Entry) (i : ℕ) (e : Entry)
    → get_elem? es i ≡ some e
    → is_variant e.name ≡ true
    → e.readable ≡ true
    → e.write_fails ≡ none
    → (e' : Entry) × (get_elem? (mark_entries es) i ≡ some e') × IsEnded e e'
mark_entries-IsEnded es i e k v r w = (
  mark_entry e,
  get_elem?-mark_entries i es ∙ ap (Option.map mark_entry) k,
  mark_entry-IsEnded e v r w,
)

mark_entries_idempotent :
    (es : List Entry)
    → All (λ e. e.write_fails ≡ none) es
    → mark_entries (mark_entries es) ≡ mark_entries es
unfolding mark_entries
mark_entries_idempotent [] h = refl
mark_entries_idempotent (e ∷ es) h =
    cc (mark_entry_idempotent e h.0, mark_entries_idempotent es h.1)

-- Marking a directory in which every write succeeds a second time changes nothing.
mark_as_vod_idempotent :
    (es : List Entry)
    → All (λ e. e.write_fails ≡ none) es
    → mark_as_vod (mark_as_vod (some es)).0 ≡ mark_as_vod (some es)
unfolding mark_as_vod
mark_as_vod_idempotent es h = rw (mark_entries_idempotent es h)
