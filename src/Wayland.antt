-- ===== src/Wayland.antt =====
-- internal/wl: the wire protocol, the objects of a connection, and the shared sessions.
pub mod Session
pub mod Globals
pub mod Wire
pub mod Objects
pub mod Transport
