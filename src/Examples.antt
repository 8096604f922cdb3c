-- ===== src/Examples.antt =====
-- Concrete instances of what the development takes as parameters, and the examples that apply its
-- theorems to them.
mod Docs
mod Store
mod Fixtures
mod Booking
mod Domains
mod Retries
mod Event
mod Relays
mod Sagas
mod Mapped
mod Reports
mod Searched
mod Air
mod Web
mod Demos
mod Stall
mod Gauges
