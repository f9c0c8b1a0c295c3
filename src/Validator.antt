-- ===== src/Validator.antt =====
-- lib/src/validator: schemas, and the registry that validates documents against them.
pub mod Errors
pub mod Valijson
pub mod Schema
pub mod Registry
pub mod Documents
mod Tests
