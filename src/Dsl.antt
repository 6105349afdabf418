-- ===== src/Dsl.antt =====
-- crates/schema-forge-dsl/src: tokens, the parser's cursor, its productions and the printer.
pub mod Token
pub mod Error
pub mod Literals
pub mod Decimal
pub mod Outcome
pub mod Cursor
pub mod Params
pub mod Types
pub mod Fields
pub mod Annotations
pub mod Parse
pub mod Good
pub mod Printer
pub mod RoundTrip
mod Examples
