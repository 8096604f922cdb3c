-- ===== src/Bookings.antt =====
-- flydesk/bookings: orders, their storage, the booking use-case, on its own and down to
-- the calls to the provider, and the saga.
pub mod Desk
pub mod Document
pub mod Repository
pub mod Saga
pub mod Schedule
pub mod Service
