-- ===== src/Semver/Order.antt =====
-- static/js/semver.js: the comparison of versions, of which some laws ask for exact pre-release
-- identifiers: every numeric identifier is a number, none was kept as a string because it is too
-- large. The parts stand in the children, for texts and for identifiers.
mod Texts
mod Idents
mod Versions
pub use Texts.{flip, compare_text-flip, compare_text-cons, compare_text_refl, compare_refl}
pub use Idents.{IsExact, same_ident_refl, compare_identifiers-flip, compare_pre-flip}
pub use Versions.*
