-- ===== src/Prelude/Text.antt =====
-- Texts that the program takes apart, as lists of code points, with Python's methods on them.
-- The classes of characters are those of ASCII.
mod Strip
mod Decimal
mod Trim
mod Breaks
mod Lines
unfoldable pub use Strip.*
pub use Breaks.*
pub use Trim.*
unfoldable pub use Lines.*
unfoldable pub use Decimal.*
