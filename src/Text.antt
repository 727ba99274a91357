-- ===== src/Text.antt =====
-- `std::string` as the program uses it: a text is the list of its bytes, and `std::string::npos` is
-- `none`. The functions of includes/string_utils.h and what they use of the standard library.
pub mod Search
pub mod Replace
pub mod Words
pub mod Decimal
pub mod StringMap
pub mod Lines
