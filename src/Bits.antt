-- ===== src/Bits.antt =====
-- Laws of the native bit operations, digit by digit, and machine words over them.
mod Digits
mod Laws
mod Words
unfoldable pub use Digits.*
unfoldable pub use Laws.*
unfoldable pub use Words.*
