-- ===== src/Std.antt =====
-- What the program uses of Rust's standard library: UTF-8, decimal numbers, signed arithmetic, byte
-- order.
pub mod Utf8
pub mod Decimal
pub mod Int
pub mod Order
pub mod Bits
pub mod Net
pub mod Map
pub mod Display
pub mod Sort
pub mod Removal
pub mod Text
pub mod TextLaws
