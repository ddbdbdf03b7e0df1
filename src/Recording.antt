-- ===== src/Recording.antt =====
-- internal/recording: the worker that turns segments into one file, and the endpoint of a recording.
pub mod Worker
pub mod Requests
