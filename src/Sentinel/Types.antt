-- ===== src/Sentinel/Types.antt =====
-- internal/sentinel/types.go: the quorum signal and the snapshot that the observer publishes.
use velkir.Prelude.{Bool, List, String}
use velkir.Prelude.Int.{ℤ}
use velkir.Prelude.Time.{Time}

-- One sentinel pod: its name and its dial address.
pub record Endpoint : Type 0 where
  pub name : String
  pub addr : String

pub data QuorumStatus : Type 0 where
  unknown reachable lost : QuorumStatus

pub data Source : Type 0 where
  no_source pubsub poll merge : Source

abbrev pub StampMap : Type 0
StampMap = List (String × Time)

pub record ObservedPrimary : Type 0 where
  pub addr : String
  pub epoch : ℤ
  pub quorum : QuorumStatus
  pub quorum_ok : Bool
  pub updated_at : Time
  pub last_polled_at : Time
  pub source : Source
  pub odown : StampMap
  pub odown_pull : StampMap

pub record Snapshot : Type 0 where
  pub present : Bool
  pub primary : ObservedPrimary
