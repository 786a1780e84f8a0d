-- ===== src/Stream.antt =====
-- The parts of the C++ library's text input that the program reads with: `std::stringstream` with
-- `>>` on `std::string`, `size_t` and `int`, `str().substr(tellg())`, `std::stoi` and
-- `std::to_string`. The locale is "C". A failed sentry leaves the variable as it was, so each
-- extraction takes the variable's old value.
pub mod Decimal
pub mod Words
mod Defs
unfoldable pub use Defs.*
