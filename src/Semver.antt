-- ===== src/Semver.antt =====
-- static/js/semver.js, the version library that the table sorter's pages load.
pub mod Patterns
pub mod Number
pub mod Version
pub mod Compare
pub mod Inc
pub mod Order
pub mod Replace
pub mod Comparator
pub mod Range
pub mod Outside
pub mod Releases
pub mod Printing
mod Tests
