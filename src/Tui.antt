-- ===== src/Tui.antt =====
-- internal/tui: the state behind the terminal's screen.
pub mod History
pub mod Questions
