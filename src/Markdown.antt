-- ===== src/Markdown.antt =====
-- The Markdown preview of the web client (apps/elektrine/assets/js/markdown_helpers.js).
pub mod Text
pub mod Href
pub mod Schemes
pub mod Inline
pub mod Lines
pub mod Wrap
mod Editor
pub mod Tagged
pub mod Trim
pub mod Marks
pub mod Links
pub mod Quotes
pub mod Anchors
pub mod Safety
mod Tests
