-- ===== src/Viewer/Theme.antt =====
-- docs/doxygen-awesome-*.js: the scripts of the theme of the pages.
pub mod DarkMode
pub mod Toc
pub mod CopyButton
