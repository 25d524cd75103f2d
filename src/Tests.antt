-- ===== src/Tests.antt =====
-- Runs of the modelled code on concrete inputs, and the theorems at inputs where their hypotheses
-- hold.
mod Packet
mod Config
mod Https
mod Metrics
mod Probe
mod Trace
mod Logger
mod Save
mod Mitm
mod Views
