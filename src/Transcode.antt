-- ===== src/Transcode.antt =====
-- internal/transcode: the FFmpeg processes and their logs.
pub mod Manager
pub mod Logger
pub mod Pumps
pub mod Outputs
