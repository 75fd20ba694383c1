-- ===== src/Tui.antt =====
-- internal/tui: the models behind the terminal interface.
pub mod Peers
pub mod Files
pub mod Progress
pub mod Overlays
pub mod Model
