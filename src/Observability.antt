-- ===== src/Observability.antt =====
-- flydesk/common/observability.py: the removal of personal data from what is reported. A report is
-- built of dicts, lists and other values.
pub mod Clean
use fly_desk.Prelude.{
  ℕ, String, Bool, true, false, ◌||◌, Option, none, some, List, [], ◌∷◌, str_eq, if◌then◌else◌,
}

mutual
  pub data Report : Type 0 where
    null : Report
    num : ℕ → Report
    text : String → Report
    seq : Elements → Report
    dict : Entries → Report

  pub data Elements : Type 0 where
    none_left : Elements
    element : Report → Elements → Elements

  pub data Entries : Type 0 where
    no_more : Entries
    entry : String → Report → Entries → Entries

-- `_PII_KEYS`
abbrev pub pii_keys : List String
pii_keys =
    "given_name" ∷ "family_name" ∷ "firstName" ∷ "lastName" ∷ "name" ∷ "email" ∷ "emailAddress"
    ∷ "phone_number" ∷ "phones" ∷ "born_on" ∷ "dateOfBirth" ∷ "documents" ∷ "passengers"
    ∷ "travelers" ∷ []

abbrev pub listed : String → List String → Bool
listed k [] = false
listed k (j ∷ l) = str_eq k j || listed k l

unfoldable pub is_pii : String → Bool
is_pii k = listed k pii_keys

abbrev pub redacted : Report
redacted = text "[scrubbed]"

unfoldable mutual
  pub scrub_pii : Report → Report
  scrub_pii (dict fields) = dict (scrub_entries fields)
  scrub_pii (seq items) = seq (scrub_elements items)
  scrub_pii null = null
  scrub_pii (num n) = num n
  scrub_pii (text s) = text s

  pub scrub_elements : Elements → Elements
  scrub_elements none_left = none_left
  scrub_elements (element v rest) = element (scrub_pii v) (scrub_elements rest)

  pub scrub_entries : Entries → Entries
  scrub_entries no_more = no_more
  scrub_entries (entry k v rest) =
      let kept = scrub_pii v in entry k (if is_pii k then redacted else kept) (scrub_entries rest)

-- `before_send_scrub`
abbrev pub before_send_scrub : Report → Report
before_send_scrub event = scrub_pii event

-- What Sentry is started with; the sampling rate counts percents.
pub record SentryOptions : Type 0 where
  pub dsn : String
  pub environment : String
  pub traces_sample_percent : ℕ
  pub send_default_pii : Bool
  pub before_send : Report → Report

-- `init_sentry`: without a DSN nothing is started.
unfoldable pub init_sentry : String → String → Option SentryOptions
init_sentry dsn environment =
    if str_eq dsn ""
    then none
    else some (record {
      dsn = dsn;
      environment = environment;
      traces_sample_percent = 10;
      send_default_pii = false;
      before_send = before_send_scrub;
    })
