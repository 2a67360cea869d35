-- ===== src/Tests.antt =====
-- Sample runs, and the theorems at concrete inputs.
mod Fixture
mod Capture
mod Handlers
mod Trees
mod Stores
mod Rounds
mod Passes
mod Applier
mod Verifier
mod Bodies
