-- ===== src/Markdown.antt =====
-- src/parser/markdown.h and src/parser/markdown.cpp: the Markdown parser.
pub mod Document
pub mod Inline
pub mod Lists
pub mod Blocks
pub mod Fences
pub mod Tables
pub mod Metadata
pub mod Parser
pub mod Html
mod Witnesses
