-- ===== src/Writer/Balance.antt =====
-- What a walk over a document leaves as it was: the stacks and the counters of the translator of
-- source/_exts/pearson/writer.py.
pub mod Frame
pub mod Rules
pub mod Texts
pub mod Blocks
pub mod Parts
pub mod Moves
pub mod Brackets
pub mod Notes
pub mod Holding
pub mod Counts
pub mod Terms
pub mod Special
pub mod Titles
pub mod Neutral
pub mod Opened
pub mod Captions
pub mod Files
pub mod Tabular
pub mod Closing
pub mod Groups
pub mod Kinds
pub mod Whole
pub mod Document
