-- ===== src/Domain.antt =====
-- flydesk/domain: the normalized models that the rest of the system speaks.
pub mod Enums
pub mod Text
pub mod Codes
pub mod Money
pub mod Time
pub mod Models
pub mod Criteria
pub mod Sorting
