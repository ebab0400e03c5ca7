-- ===== src/Base/Bits.antt =====
-- Laws of `&`, `|` and `^` at variables, from the digit recursion that the native operations
-- stand for: one equation for the lowest digit, then masks and alignment at every width.
mod Digits
pub mod Mask
pub mod Align
pub mod Single
pub mod Xor
pub use Digits.{bit_and_step, bit_or_step, bit_xor_step}
