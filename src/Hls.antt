-- ===== src/Hls.antt =====
-- internal/hls: serving the segments and marking the playlists of a stream that has ended.
pub mod Vod
pub mod Segments
