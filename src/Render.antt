-- ===== src/Render.antt =====
-- internal/render: a report as plain text.
pub mod Rows
pub mod Commands
pub mod Text
