-- ===== src/Examples/Reports.antt =====
-- The theorem on reports at a small one.
use fly_desk.Prelude.{◌≡◌}
use fly_desk.Observability.{Report, text, dict, entry, no_more, scrub_pii}
use fly_desk.Observability.Clean.{IsClean, scrub_pii-IsClean}

abbrev report : Report
report = dict (entry "order" (dict (entry "email" (text "ada@example.org") no_more)) no_more)

scrub_pii-IsClean_example :
    IsClean (scrub_pii report) × (scrub_pii (scrub_pii report) ≡ scrub_pii report)
scrub_pii-IsClean_example = scrub_pii-IsClean report
