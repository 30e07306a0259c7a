-- ===== src/Tests.antt =====
-- The theorems at concrete inputs.
mod Samples
mod Records
mod Requests
mod Signing
mod Gates
mod Agents
mod Templates
mod Evidence
mod System
mod Reports
mod Sessions
mod Geocoding
mod Placing
mod Handover
mod Progress
