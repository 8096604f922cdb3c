-- ===== src/Settings.antt =====
-- flydesk/common/config.py: the settings. How pydantic looks a name up in the environment and in the
-- file `.env`, and how it reads a Boolean and an integer, are parameters.
pub mod Hosts
use Prim.Native.Char.{Char, code}
use Prim.Native.String.{[] as []s, ◌∷◌ as ◌∷s◌}
use fly_desk.Prelude.{
  ℕ, String, Bool, true, false, Option, none, some, List, [], ◌∷◌, ◌==◌, if◌then◌else◌,
}
use fly_desk.Prelude.Options.{◌>>=◌, or_default}
use fly_desk.Domain.Text.{CharTable, strip, is_empty}

pub record Settings : Type 0 where
  pub django_secret_key : String
  pub django_debug : Bool
  pub django_allowed_hosts : String
  pub mongo_uri : String
  pub mongo_db : String
  pub redis_url : String
  pub offer_cache_ttl : ℕ
  pub kafka_bootstrap_servers : String
  pub environment : String
  pub log_json : Bool
  pub sentry_dsn : String
  pub duffel_api_token : String
  pub duffel_api_url : String
  pub duffel_api_version : String
  pub provider : String

-- A field that the environment may set: `none` is the `ValidationError`.
abbrev pub field {ℓ} : {A : Type ℓ} → (String → Option A) → A → Option String → Option A
field read default none = some default
field read default (some text) = read text

-- `Settings()`
unfoldable pub make_settings :
    (String → Option Bool) → (String → Option ℕ) → (String → Option String) → Option Settings
make_settings bool int env = do
  django_debug ← field bool false (env "DJANGO_DEBUG")
  offer_cache_ttl ← field int 60 (env "OFFER_CACHE_TTL")
  log_json ← field bool false (env "LOG_JSON")
  some (record {
    django_secret_key = or_default (env "DJANGO_SECRET_KEY") "dev-insecure-change-me";
    django_debug = django_debug;
    django_allowed_hosts = or_default (env "DJANGO_ALLOWED_HOSTS") "localhost,127.0.0.1";
    mongo_uri = or_default (env "MONGO_URI") "mongodb://localhost:27017";
    mongo_db = or_default (env "MONGO_DB") "flydesk";
    redis_url = or_default (env "REDIS_URL") "redis://localhost:6379/0";
    offer_cache_ttl = offer_cache_ttl;
    kafka_bootstrap_servers = or_default (env "KAFKA_BOOTSTRAP_SERVERS") "localhost:9092";
    environment = or_default (env "FLYDESK_ENV") "development";
    log_json = log_json;
    sentry_dsn = or_default (env "SENTRY_DSN") "";
    duffel_api_token = or_default (env "DUFFEL_API_TOKEN") "";
    duffel_api_url = or_default (env "DUFFEL_API_URL") "https://api.duffel.com";
    duffel_api_version = or_default (env "DUFFEL_API_VERSION") "v2";
    provider = or_default (env "FLYDESK_PROVIDER") "duffel";
  })

-- `@lru_cache`: settings that were made are kept, and what raises is tried again.
unfoldable pub get_settings : Option Settings → Option Settings → Option Settings × Option Settings
get_settings (some kept) made = (some kept, some kept)
get_settings none made = (made, made)

abbrev pub prepend : Char → List String → List String
prepend c [] = (c ∷s []s) ∷ []
prepend c (s ∷ rest) = (c ∷s s) ∷ rest

-- `text.split(",")`
unfoldable pub split : String → List String
split []s = []s ∷ []
split (c ∷s s) = let rest = split s in if code c == 44 then []s ∷ rest else prepend c rest

module _ (t : CharTable) where
  -- The comprehension of `allowed_hosts_list`.
  unfoldable pub hosts : List String → List String
  hosts [] = []
  hosts (h ∷ rest) =
      let others = hosts rest in if is_empty (strip t h) then others else strip t h ∷ others

  -- `Settings.allowed_hosts_list`
  unfoldable pub allowed_hosts_list : Settings → List String
  unfolding split hosts
  allowed_hosts_list s = hosts (split s.django_allowed_hosts)
