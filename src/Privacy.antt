-- ===== src/Privacy.antt =====
-- src/application/privacy_anonymizer.cpp: the kinds of private values, the classification of fields,
-- the synthetic values, and two of the steps of `sanitize`. The replacements inside `sanitize` that
-- `std::regex` finds, and the scanner of `replace_sensitive_fields`, are left out.
pub mod Markers
mod Kinds
mod Fields
mod Synthetic
mod Texts
unfoldable pub use Kinds.*
unfoldable pub use Fields.*
unfoldable pub use Synthetic.*
unfoldable pub use Texts.*
