-- ===== src/Providers.antt =====
-- flydesk/providers: the raw payloads of the flight providers and their translation.
pub mod Normal
pub mod Duffel
pub mod Amadeus
pub mod Base
