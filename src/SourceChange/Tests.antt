-- ===== src/SourceChange/Tests.antt =====
-- Runs of the notice of web/src/SourceChangeImpact.tsx.
use context_gate.Base.{◌≡◌, refl, ◌↔◌, codes, true, false, none, some}
use context_gate.Types.{Limits, Source}
use context_gate.SourceChange.{new_secret, notice_shown}
use context_gate.SourceChange.Impact.{SameConnection, NoSecret, notice_shown_iff}

abbrev limits : Limits
limits = record { timeout_seconds = 30; max_rows = 1000; max_bytes = 1000000; concurrency = 4 }

abbrev source : Source
source = record {
  http_api = none;
  query_access_mode = none;
  connection_revision = none;
  id = codes "db";
  name = codes "Orders";
  kind = codes "postgres";
  version = none;
  host = some (codes "db.local");
  port = some 5432;
  database = some (codes "orders");
  username = some (codes "reader");
  password = none;
  token = none;
  path = none;
  tls_mode = codes "require";
  ca_cert = none;
  options = none;
  enabled = true;
  limits = limits;
  revision = codes "1";
  query_revision = codes "1";
  capability = none;
  has_secret = true;
  auth_mode = none;
  clear_password = none;
  clear_token = none;
  probe = none;
}

abbrev renamed : Source
renamed = record source { name = codes "Sales" }

-- A new password counts, whatever else stays.
new_password : new_secret (record source { password = some (codes "secret") }) ≡ true
unfolding new_secret
new_password = refl

notice_shown_iff_example : (notice_shown source renamed ≡ false) ↔ (
    SameConnection source renamed
    × NoSecret renamed
    × (Source.enabled source ≡ Source.enabled renamed)
    × (Source.query_access_mode source ≡ Source.query_access_mode renamed))
notice_shown_iff_example = notice_shown_iff source renamed
