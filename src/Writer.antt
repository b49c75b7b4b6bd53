-- ===== src/Writer.antt =====
-- source/_exts/pearson/writer.py: the docutils writer that turns the book into LaTeX.
pub mod Node
pub mod State
pub mod Text
pub mod Structure
pub mod Titles
pub mod Desc
pub mod Lists
pub mod Tables
pub mod Inline
pub mod Figures
pub mod Dispatch
pub mod Walk
pub mod Balance
pub mod Laws
