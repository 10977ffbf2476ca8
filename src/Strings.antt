-- ===== src/Strings.antt =====
-- The functions of Go's packages strings, strconv, bufio, path, unicode and utf8 that several parts call.
-- But for Runes they know ASCII alone.
pub mod Space
pub mod Numbers
pub mod Runes
pub mod ValidText
pub mod Lines
pub mod Clean
pub mod Pieces
