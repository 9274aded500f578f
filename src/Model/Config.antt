-- ===== src/Model/Config.antt =====
-- model/global.rs and model/tls.rs: the two configurations and their patches. In a patch the outer
-- `none` leaves a field, `some none` clears it and `some (some v)` sets it.
use trilithon.Base.{String, Bool, not, ◌&&◌, Option, is_some}

pub record GlobalConfig : Type 0 where
  pub admin_listen : Option String
  pub default_sni : Option String
  pub log_level : Option String

pub record GlobalConfigPatch : Type 0 where
  pub admin_listen : Option (Option String)
  pub default_sni : Option (Option String)
  pub log_level : Option (Option String)

unfoldable pub is_noop : GlobalConfigPatch → Bool
is_noop p = not (is_some p.admin_listen) && not (is_some p.default_sni) && not (is_some p.log_level)

pub data TlsIssuer : Type 0 where
  acme : String → TlsIssuer
  internal : TlsIssuer

pub record TlsConfig : Type 0 where
  pub email : Option String
  pub on_demand_enabled : Bool
  pub on_demand_ask_url : Option String
  pub default_issuer : Option TlsIssuer

pub record TlsConfigPatch : Type 0 where
  pub email : Option (Option String)
  pub on_demand_enabled : Option Bool
  pub on_demand_ask_url : Option (Option String)
  pub default_issuer : Option (Option TlsIssuer)
