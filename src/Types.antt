-- ===== src/Types.antt =====
-- web/src/types.ts, and `Diagnostic` of web/src/api.ts. Counts and ports are natural numbers, a
-- time is its ISO text, and a union of string literals is its text.
use context_gate.Base.{ℕ, Text, Bool, List, Option}
use context_gate.Json.{Json}

pub record Diagnostic : Type 0 where
  pub code : Text
  pub message : Text
  pub request_id : Option Text
  pub native_code : Option Text

pub record Limits : Type 0 where
  pub timeout_seconds : ℕ
  pub max_rows : ℕ
  pub max_bytes : ℕ
  pub concurrency : ℕ

pub record Probe : Type 0 where
  pub error : Option Diagnostic
  pub connected : Bool
  pub protection : Text
  pub permission_status : Text
  pub evidence : List Text
  pub server_version : Option Text
  pub checked_at : Text

pub record HttpParameter : Type 0 where
  pub name : Text
  pub location : Text
  pub target : Text
  pub type : Text
  pub required : Bool
  pub default_json : Option Text
  pub enum_json : Option Text
  pub minimum : Option Text
  pub maximum : Option Text

pub record HttpColumn : Type 0 where
  pub name : Text
  pub type : Text

pub record HttpPagination : Type 0 where
  pub query_parameter : Text
  pub next_pointer : Text

pub record HttpOperation : Type 0 where
  pub id : Text
  pub name : Text
  pub description : Option Text
  pub method : Text
  pub path : Text
  pub read_only : Bool
  pub body_json : Option Text
  pub parameters : Option (List HttpParameter)
  pub example_json : Text
  pub response_pointer : Option Text
  pub columns : Option (List HttpColumn)
  pub pagination : Option HttpPagination

pub record HttpApiConfig : Type 0 where
  pub base_url : Text
  pub token_header : Option Text
  pub probe_operation : Text
  pub operations : List HttpOperation

pub record Capability : Type 0 where
  pub kind : Text
  pub name : Text
  pub family : Text
  pub tool : Text
  pub port : ℕ
  pub protection : Text
  pub parameters : Bool
  pub pagination : Text
  pub example : List (Text × Json)
  pub limitations : List Text
  pub verified_versions : List Text

pub record Source : Type 0 where
  pub http_api : Option HttpApiConfig
  pub query_access_mode : Option Text
  pub connection_revision : Option Text
  pub id : Text
  pub name : Text
  pub kind : Text
  pub version : Option Text
  pub host : Option Text
  pub port : Option ℕ
  pub database : Option Text
  pub username : Option Text
  pub password : Option Text
  pub token : Option Text
  pub path : Option Text
  pub tls_mode : Text
  pub ca_cert : Option Text
  pub options : Option (List (Text × Text))
  pub enabled : Bool
  pub limits : Limits
  pub revision : Text
  pub query_revision : Text
  pub capability : Option Capability
  pub has_secret : Bool
  pub auth_mode : Option Text
  pub clear_password : Option Bool
  pub clear_token : Option Bool
  pub probe : Option Probe
