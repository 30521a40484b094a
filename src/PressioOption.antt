-- ===== src/PressioOption.antt =====
-- include/libpressio_ext/cpp/options.h (struct pressio_option), include/pressio_option.h and
-- src/pressio_option.cc: a value with a type tag, and its conversions.
pub mod Host
pub mod Decimal
pub mod Numeric
pub mod Cell
pub mod Names
pub mod Convert
pub mod As
pub mod Lossless
pub mod ResultType
pub mod RoundTrip
