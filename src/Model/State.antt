-- ===== src/Model/State.antt =====
-- model/desired_state.rs and model/policy.rs: the aggregate that mutations act on.
use trilithon.Base.{ℕ, String, [], none, false}
use trilithon.Base.Int.{ℤ, pos}
use trilithon.Base.BTreeMap.{BTreeMap}
use trilithon.Model.Json.{Value}
use trilithon.Model.Identifier.{PresetId}
use trilithon.Model.Route.{Route}
use trilithon.Model.Upstream.{Upstream}
use trilithon.Model.Config.{GlobalConfig, TlsConfig}

pub record PresetVersion : Type 0 where
  pub preset_id : PresetId
  pub version : ℕ  -- u32
  pub body_json : String

pub record PolicyAttachment : Type 0 where
  pub preset_id : PresetId
  pub preset_version : ℕ  -- u32

pub record DesiredState : Type 0 where
  pub version : ℤ
  pub routes : BTreeMap Route
  pub upstreams : BTreeMap Upstream
  pub policies : BTreeMap PolicyAttachment
  pub presets : BTreeMap PresetVersion
  pub tls : TlsConfig
  pub global : GlobalConfig
  pub unknown_extensions : BTreeMap Value

-- `DesiredState::empty()`
abbrev pub empty : DesiredState
empty = record {
  version = pos 0;
  routes = [];
  upstreams = [];
  policies = [];
  presets = [];
  tls = record {
    email = none;
    on_demand_enabled = false;
    on_demand_ask_url = none;
    default_issuer = none;
  };
  global = record { admin_listen = none; default_sni = none; log_level = none };
  unknown_extensions = [];
}
