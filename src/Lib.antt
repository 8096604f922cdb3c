-- ===== src/Lib.antt =====
-- A model of FlyDesk, a service that searches flights at providers and books them, with the
-- theorems that make its core correct.
--
-- The parts and where they are modelled:
-- - Errors: flydesk/common/exceptions.py, the error classes and the HTTP error handler. An exception
--   is a value of `Exception`, and a call ends with an `Outcome`. Actions has `do` blocks for code that
--   may raise and changes a state.
-- - Resilience: flydesk/common/resilience.py. Retry has `retry_async`; the loop is a recursion on the
--   rounds that `range(attempts)` leaves, so it needs no fuel. The circuit breaker is a record, and
--   Breaker looks at calls in a row and at calls that overlap, Probe at the first call after a pause.
-- - Domain: flydesk/domain/enums.py and flydesk/domain/models.py. Codes has the validated codes over
--   a table of characters (Text), Money the amounts, Criteria the search input with `build_criteria`
--   of flydesk/search/services.py. A `Decimal` is a sign, digits and decimal places; a time counts
--   microseconds.
-- - Mongo: what the program relies on of a MongoDB collection with a unique sparse index.
-- - Bookings: flydesk/bookings. Document is the stored form of an order, Repository the class
--   `OrderRepository`, Service the use-case `create_booking`, with Redis, the provider, the clock and
--   `uuid` as parameters (Service/Ports). Service/Phases cuts `create_booking` at its calls of shared
--   services into atomic steps.
--   Saga is the coordinator of flydesk/bookings/saga.py with its booking saga; its services are
--   parameters.
-- - Events: flydesk/events, with the broker and the collection of processed events as parameters.
--   Relay is `relay_once`, Consumers the three handlers and one round of the worker's loop. Overlap
--   lets the ticketing run between the publication and the save of the relay. Workers has the loops of
--   the two worker processes; the endless one of the relay goes on for a given number of rounds.
--   Pipeline follows a booking over the relay to its ticket.
-- - Providers: flydesk/providers. Duffel and Amadeus have the payloads (schemas.py) and the mappers
--   (mapper.py); what a mapper raises is `none`. Duffel/Payloads and Duffel/Client are the two clients
--   of Duffel (client.py, async_client.py) over an HTTP library that is a parameter; the world notes
--   every call sent. Base has `get_provider` of base.py, amadeus/provider.py and mock.py.
-- - Bookings/Desk puts the booking use-case on `get_provider` and the Duffel client. Bookings/Schedule
--   runs many requests at once, a list of indices saying which request takes the next step.
-- - Search: flydesk/search. FanOut is `search_all` of async_service.py with breaker, retries and
--   deadline of each provider; its tasks run one after another, as for `max_concurrency=1`. FanOut/Asked
--   tells what each provider is asked and what its answer is. Answers is
--   its end, when all providers have answered or failed. Cache is `cached_search` of cache.py, Document
--   the stored form of an offer. Domain/Sorting is the sort by price.
-- - Api: the views flydesk/bookings/views.py and flydesk/search/views.py on the parts above, and the
--   middleware flydesk/common/middleware.py. What a serializer makes of a body is a parameter.
-- - Observability: flydesk/common/observability.py, the removal of personal data from reports.
-- - Settings: flydesk/common/config.py.
-- - Demo: Generate is demo/generate.py, the offers of the demonstration; Seed is demo/seed.py, which
--   writes them to Redis, with the provider of demo/demo_provider.py; App is demo/app.py, its endpoints
--   for searches, bookings and the cache on the parts above, with their bodies in Cockpit.
--   Exporter is demo/stats_exporter.py, the gauges of the containers.
-- - Examples: instances of every parameter, and an application of each theorem.
--
-- Numbers are unbounded, as Python's are. A dict is an association list in insertion order.
--
-- Not modelled: HTTP serializers and metrics, the connections to
-- MongoDB, Redis, Kafka and the providers, the Kafka publisher, overlapping tasks of one search, and
-- pydantic's parsing of texts: input and output, or code of other libraries. The pages of the
-- demonstration and the scripts are not modelled either.
pub mod Api
pub mod Demo
pub mod Prelude
pub mod Errors
pub mod Resilience
pub mod Domain
pub mod Mongo
pub mod Bookings
pub mod Events
pub mod Providers
pub mod Observability
pub mod Search
pub mod Settings
mod Examples
