-- ===== src/Canonical.antt =====
-- The canonical form of JSON values (RFC 8785): internal/canonical. A text is its list of code
-- points, so the bytes of the code are their UTF-8; a string of the code that is not valid UTF-8 is
-- a list with a number in it that is not a Unicode scalar value. The path of an error is left out:
-- `none` is any error.
pub mod Text
pub mod Number
pub mod Order
pub mod Encode
pub mod Parse
mod Tests
