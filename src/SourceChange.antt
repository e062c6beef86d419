-- ===== src/SourceChange.antt =====
-- web/src/SourceChangeImpact.tsx: whether the edited form of a source changes its connection or its
-- access. The notice itself is markup.
pub mod Impact
pub mod Tests
use context_gate.Base.{
  ℕ, Text, Bool, true, false, not, ◌&&◌, ◌||◌, List, Option, none, some, truthy?,
}
use context_gate.Types.{HttpApiConfig, Source}
use native.Mathlib.Decide.{ℕ_discrete}

-- The members that `keys` names.
pub record Connection : Type 0 where
  pub kind : Text
  pub version : Option Text
  pub http_api : Option HttpApiConfig
  pub host : Option Text
  pub port : Option ℕ
  pub database : Option Text
  pub username : Option Text
  pub path : Option Text
  pub tls_mode : Text
  pub ca_cert : Option Text
  pub options : Option (List (Text × Text))
  pub auth_mode : Option Text

unfoldable pub Connection-discrete : Discrete Connection
Connection-discrete = hlevel ℕ_discrete

unfoldable pub connection_of : Source → Connection
connection_of s = record {
  kind = s.kind;
  version = s.version;
  http_api = s.http_api;
  host = s.host;
  port = s.port;
  database = s.database;
  username = s.username;
  path = s.path;
  tls_mode = s.tls_mode;
  ca_cert = s.ca_cert;
  options = s.options;
  auth_mode = s.auth_mode;
}

-- The comparisons of the JSON texts of all members.
abbrev pub same_connection : Connection → Connection → Bool
same_connection a b = elim (Connection-discrete a b) [ yes _ ↦ true | no _ ↦ false ]

abbrev pub given_flag : Option Bool → Bool
given_flag none = false
given_flag (some b) = b

unfoldable pub new_secret : Source → Bool
new_secret form =
    truthy? form.password
    || (truthy? form.token || (given_flag form.clear_password || given_flag form.clear_token))

unfoldable pub connection_changed : Source → Source → Bool
connection_changed saved form =
    not (same_connection (connection_of saved) (connection_of form)) || new_secret form

abbrev pub Access : Type 0
Access = Bool × Option Text

unfoldable pub Access-discrete : Discrete Access
Access-discrete = hlevel ℕ_discrete

-- `enabled` and `query_access_mode`
abbrev pub access_of : Source → Access
access_of s = (s.enabled, s.query_access_mode)

unfoldable pub access_changed : Source → Source → Bool
access_changed saved form = elim (Access-discrete (access_of saved) (access_of form)) [
  | yes _ ↦ false
  | no _ ↦ true
]

-- The notice is rendered.
unfoldable pub notice_shown : Source → Source → Bool
notice_shown saved form = connection_changed saved form || access_changed saved form
