-- ===== src/Toolbox/Config/Save/Storable.antt =====
-- The configurations of toolbox/src/runtime_config.cpp whose text can be read back.
use nx_reverse.Base.{◌≤◌, All}
use nx_reverse.Toolbox.Ipv4.{u32_max, size_max}
use nx_reverse.Toolbox.Config.{RuntimeConfig}
use nx_reverse.Toolbox.Config.Save.Lines.{IsText}
use nx_reverse.Toolbox.Config.Save.Profiles.{IsKept}

-- Values that fit their types in the source, and profile names with no end of a line and no blank at
-- their ends.
pub record IsStorable (c : RuntimeConfig) : Type 0 where
  pub workload_fits : c.next_workload_id ≤ u32_max
  pub payload_fits : c.udp.payload_bytes ≤ size_max
  pub flows_fit : c.udp.concurrent_flows ≤ u32_max
  pub seed_fits : c.udp.payload_seed ≤ u32_max
  pub kept : All IsKept c.profiles
  pub names : All (λ p. IsText p.name) c.profiles
