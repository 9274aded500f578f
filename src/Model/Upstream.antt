-- ===== src/Model/Upstream.antt =====
-- model/upstream.rs
use trilithon.Base.{ℕ, String, Option}
use trilithon.Model.Identifier.{UpstreamId}

pub data UpstreamDestination : Type 0 where
  tcp_addr : String → ℕ → UpstreamDestination
  unix_socket : String → UpstreamDestination
  docker_container : String → ℕ → UpstreamDestination

pub data UpstreamProbe : Type 0 where
  tcp : UpstreamProbe
  http : String → ℕ → UpstreamProbe
  disabled : UpstreamProbe

pub record Upstream : Type 0 where
  pub id : UpstreamId
  pub destination : UpstreamDestination
  pub probe : UpstreamProbe
  pub weight : ℕ  -- u16
  pub max_request_bytes : Option ℕ  -- u64
