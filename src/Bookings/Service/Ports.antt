-- ===== src/Bookings/Service/Ports.antt =====
-- What flydesk/bookings/services.py calls outside the program: Redis, the flight provider that
-- `get_provider` resolves, `uuid`, the clock and pydantic's check of a passenger.
use fly_desk.Prelude.{ℕ, ◌≡◌, ◌≢◌, String, Bool, true, false, Option, List}
use fly_desk.Errors.{Outcome}
use fly_desk.Domain.Time.{Datetime}
use fly_desk.Domain.Models.{BookingPassenger, Order}

-- The answer of `SET key value NX EX ttl`.
pub data RedisReply : Type 0 where
  acquired refused redis_error : RedisReply

pub record Platform : Type 1 where
  pub Env : Type 0
  pub PassengerData : Type 0
  pub set_nx : String → ℕ → Env → RedisReply × Env
  -- `get_provider(name).create_order(offer_id, passengers)`
  pub create_order : Option String → String → List BookingPassenger → Env → Outcome Order × Env
  pub uuid : Env → String × Env
  pub now : Env → Datetime
  -- `BookingPassenger(**p)`
  pub passenger : PassengerData → Option BookingPassenger

-- A Redis that answers every call and keeps a key as long as the program runs: a key is granted
-- exactly once, and only `set_nx` grants one.
pub record IsReliable (p : Platform) : Type 0 where
  pub held : String → p.Env → Bool
  pub never_down : (k : String) (ttl : ℕ) (e : p.Env) → (p.set_nx k ttl e).0 ≢ redis_error
  pub granted :
      (k : String) (ttl : ℕ) (e : p.Env)
      → (p.set_nx k ttl e).0 ≡ acquired
      → (held k e ≡ false) × (held k (p.set_nx k ttl e).1 ≡ true)
  pub kept :
      (k j : String) (ttl : ℕ) (e : p.Env) → held j e ≡ true → held j (p.set_nx k ttl e).1 ≡ true
  pub others : (k j : String) (ttl : ℕ) (e : p.Env) → k ≢ j → held j (p.set_nx k ttl e).1 ≡ held j e
  pub refusal :
      (k : String) (ttl : ℕ) (e : p.Env)
      → (p.set_nx k ttl e).0 ≡ refused
      → (held k e ≡ true) × (held k (p.set_nx k ttl e).1 ≡ true)
  pub provider_apart :
      (name : Option String) (offer_id : String) (ps : List BookingPassenger) (e : p.Env)
      (j : String)
      → held j (p.create_order name offer_id ps e).1 ≡ held j e
  pub uuid_apart : (e : p.Env) (j : String) → held j (p.uuid e).1 ≡ held j e
