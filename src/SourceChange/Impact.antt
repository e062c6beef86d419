-- ===== src/SourceChange/Impact.antt =====
-- When an edit of a source has no impact.
use context_gate.Base.{
  ◌≡◌, refl, ap, ◌↔◌, ◌⊎◌, Text, Bool, true, false, not, ◌||◌, [], ◌∷◌, Option, none, some, arith,
  truthy?,
}
use context_gate.Types.{Source}
use context_gate.SourceChange.{
  Connection, Connection-discrete, connection_of, same_connection, given_flag, new_secret,
  connection_changed, Access-discrete, access_of, access_changed, notice_shown,
}

same_connection_iff : (a b : Connection) → (same_connection a b ≡ true) ↔ (a ≡ b)
same_connection_iff a b =
    elim (Connection-discrete a b)
      as (λ d. (elim d [ yes _ ↦ true | no _ ↦ false ] ≡ true) ↔ (a ≡ b)) [
        | yes e ↦ ((λ _. e), λ _. refl)
        | no n ↦ ((λ h. cc), λ e. absurd (n e))
      ]

access_changed_iff :
    (saved form : Source)
    → (access_changed saved form ≡ false)
      ↔ ((saved.enabled ≡ form.enabled) × (saved.query_access_mode ≡ form.query_access_mode))
unfolding access_changed
access_changed_iff saved form =
    elim (Access-discrete (access_of saved) (access_of form))
      as (λ d.
        (elim d [ yes _ ↦ false | no _ ↦ true ] ≡ false)
        ↔ ((saved.enabled ≡ form.enabled) × (saved.query_access_mode ≡ form.query_access_mode))) [
          | yes e ↦ ((λ _. (ap (λ a. a.0) e, ap (λ a. a.1) e)), λ _. refl)
          | no n ↦ ((λ h. cc), λ e. absurd (n (cc (e.0, e.1))))
        ]

-- The members of both sources that name the connection are equal.
pub record SameConnection (saved form : Source) : Type 0 where
  pub kind : saved.kind ≡ form.kind
  pub version : saved.version ≡ form.version
  pub http_api : saved.http_api ≡ form.http_api
  pub host : saved.host ≡ form.host
  pub port : saved.port ≡ form.port
  pub database : saved.database ≡ form.database
  pub username : saved.username ≡ form.username
  pub path : saved.path ≡ form.path
  pub tls_mode : saved.tls_mode ≡ form.tls_mode
  pub ca_cert : saved.ca_cert ≡ form.ca_cert
  pub options : saved.options ≡ form.options
  pub auth_mode : saved.auth_mode ≡ form.auth_mode

-- The member is missing or empty.
abbrev pub Blank : Option Text → Type 0
Blank o = (o ≡ none) ⊎ (o ≡ some [])

-- The flag is missing or off.
abbrev pub Off : Option Bool → Type 0
Off o = (o ≡ none) ⊎ (o ≡ some false)

-- The form neither gives nor clears a secret.
pub record NoSecret (form : Source) : Type 0 where
  pub password : Blank form.password
  pub token : Blank form.token
  pub kept_password : Off form.clear_password
  pub kept_token : Off form.clear_token

connection_of_iff :
    (saved form : Source) → (connection_of saved ≡ connection_of form) ↔ SameConnection saved form
unfolding connection_of
connection_of_iff saved form = (
  λ e. record {
    kind = ap Connection.kind e;
    version = ap Connection.version e;
    http_api = ap Connection.http_api e;
    host = ap Connection.host e;
    port = ap Connection.port e;
    database = ap Connection.database e;
    username = ap Connection.username e;
    path = ap Connection.path e;
    tls_mode = ap Connection.tls_mode e;
    ca_cert = ap Connection.ca_cert e;
    options = ap Connection.options e;
    auth_mode = ap Connection.auth_mode e;
  },
  λ h. cc (
    h.kind, h.version, h.http_api, h.host, h.port, h.database, h.username, h.path, h.tls_mode,
    h.ca_cert, h.options, h.auth_mode,
  ),
)

secret_missing : (o : Option Text) → (truthy? o ≡ false) ↔ Blank o
secret_missing none = ground arith
secret_missing (some []) = ground arith
secret_missing (some (c ∷ s)) = ground arith

given_flag_iff : (o : Option Bool) → (given_flag o ≡ false) ↔ Off o
given_flag_iff none = ground arith
given_flag_iff (some b) = ground arith

new_secret_iff : (form : Source) → (new_secret form ≡ false) ↔ NoSecret form
unfolding new_secret
new_secret_iff form =
    let password = secret_missing form.password in
    let token = secret_missing form.token in
    let kept_password = given_flag_iff form.clear_password in
    let kept_token = given_flag_iff form.clear_token in
    (
      λ h. record {
        password = password.0 (ground arith);
        token = token.0 (ground arith);
        kept_password = kept_password.0 (ground arith);
        kept_token = kept_token.0 (ground arith);
      },
      λ n.
          rw
            (
              password.1 n.password,
              token.1 n.token,
              kept_password.1 n.kept_password,
              kept_token.1 n.kept_token,
            )
            refl,
    )

none_of_three :
    (a b c : Bool) → (((not a || b) || c) ≡ false) ↔ ((a ≡ true) × (b ≡ false) × (c ≡ false))
none_of_three a b c = ground arith

-- No notice is shown exactly when the saved source and the form agree in each of the twelve members
-- that name the connection, the form gives no password and no token and clears neither, and both
-- have the same enablement and query access mode. Every other member may differ.
pub notice_shown_iff :
    (saved form : Source)
    → (notice_shown saved form ≡ false) ↔ (
        SameConnection saved form
        × NoSecret form
        × (saved.enabled ≡ form.enabled)
        × (saved.query_access_mode ≡ form.query_access_mode))
unfolding notice_shown connection_changed
notice_shown_iff saved form =
    let same = same_connection_iff (connection_of saved) (connection_of form) in
    let members = connection_of_iff saved form in
    let secret = new_secret_iff form in
    let access = access_changed_iff saved form in
    let all = none_of_three _ (new_secret form) (access_changed saved form) in
    (
      λ h.
          let (c, s, a) = all.0 h in
          (members.0 (same.0 c), secret.0 s, (access.0 a).0, (access.0 a).1),
      λ (c, s, e, q). all.1 (same.1 (members.1 c), secret.1 s, access.1 (e, q)),
    )
