-- ===== src/Tests.antt =====
-- Runs of the definitions on concrete inputs, and the theorems at inputs where their hypotheses hold.
mod Catalog
mod Throttle
mod Wrapping
mod Topics
mod Observed
mod Bags
mod Drawings
mod Received
mod Served
mod Recorded
mod Bagged
mod Watched
mod Exported
mod Replayed
mod Echoed
mod Declared
mod Dispatched
mod Shown
