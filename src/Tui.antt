-- ===== src/Tui.antt =====
-- internal/tui: the dashboard.
pub mod Dashboard
pub mod Row
