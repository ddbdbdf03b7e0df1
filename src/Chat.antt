-- ===== src/Chat.antt =====
-- internal/chat: the rooms of a hub, the stored history and the connections.
pub mod History
pub mod Hub
pub mod Connections
