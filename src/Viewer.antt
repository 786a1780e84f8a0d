-- ===== src/Viewer.antt =====
-- The scripts of the documentation pages (docs). Texts are the UTF-16 code units of a string, as for bytes.
pub mod Strings
pub mod Cookie
pub mod Search
pub mod Sections
pub mod CodeFold
pub mod Menu
pub mod Resize
pub mod NavTree
pub mod Theme
