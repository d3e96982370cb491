-- ===== src/SearchTools.antt =====
-- The search of the documentation pages, doc/build/html/_static/searchtools.js.
pub mod Regex
pub mod Stemmer
pub mod Query
pub mod Index
pub mod Terms
pub mod Objects
pub mod Display
pub mod Page
pub mod Start
