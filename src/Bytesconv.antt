-- ===== src/Bytesconv.antt =====
-- internal/bytesconv: the byte tables, numbers in decimal and hexadecimal, and URL quoting.
pub mod Tables
pub mod Generator
pub mod Lookup
pub mod Errors
pub mod Decimal
pub mod Hex
pub mod Quote
mod Tests
