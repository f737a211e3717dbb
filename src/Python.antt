-- ===== src/Python.antt =====
-- What the modelled files use of Python itself: exceptions, `struct`, `int`, `%d`, `json.dumps`.
pub mod Errors
pub mod Bytes
pub mod Decimal
pub mod Json
pub mod Dumps
pub mod ReadDecimal
