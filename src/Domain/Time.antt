-- ===== src/Domain/Time.antt =====
-- Python's `date` and `datetime`, as far as the domain models compare them.
use fly_desk.Prelude.{ℕ, Bool, ◌&&◌, ◌||◌, Option, none, some, ltb, ◌==◌}

pub record Date : Type 0 where
  pub year : ℕ
  pub month : ℕ
  pub day : ℕ

-- `a < b`
unfoldable pub date_lt : Date → Date → Bool
date_lt a b =
    ltb a.year b.year
    || (a.year == b.year && (ltb a.month b.month || (a.month == b.month && ltb a.day b.day)))

-- A naive time has its clock reading only; an aware one has the instant in UTC beside it. Both
-- count microseconds.
pub data Datetime : Type 0 where
  naive : ℕ → Datetime
  aware : (wall utc : ℕ) → Datetime

-- `t.replace(tzinfo=None)`
unfoldable pub drop_tzinfo : Datetime → Datetime
drop_tzinfo (naive w) = naive w
drop_tzinfo (aware w u) = naive w

-- `a < b`; `none` is the `TypeError` on a naive and an aware time.
unfoldable pub datetime_lt : Datetime → Datetime → Option Bool
datetime_lt (naive a) (naive b) = some (ltb a b)
datetime_lt (aware _ a) (aware _ b) = some (ltb a b)
datetime_lt _ _ = none
