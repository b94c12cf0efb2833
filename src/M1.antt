-- ===== src/M1.antt =====
-- The guided flow of apps/m1_rtl_to_gds/src/openroad_app_m1: its records, its store, and the
-- service that moves a specification from assessment to measured GDS evidence.
pub mod Models
pub mod Store
pub mod State
pub mod Documents
pub mod Sessions
pub mod Versions
pub mod V2
pub mod Requests
pub mod Submit
pub mod Evidence
pub mod Runs
pub mod Ends
pub mod History
pub mod Gates
pub mod Provenance
pub mod Durable
pub mod Edges
pub mod Reload
pub mod Oracles
pub mod Server
pub mod Results
pub mod Access
pub mod Settled
mod Tests
