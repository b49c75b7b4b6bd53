-- ===== src/Writer/Laws.antt =====
-- What single parts of source/_exts/pearson/writer.py do.
pub mod Clines
pub mod Labels
pub mod Levels
pub mod Footnotes
pub mod Examples
