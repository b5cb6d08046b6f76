-- ===== src/Examples.antt =====
-- Concrete inputs: the theorems applied to small clusters, caches and options.
mod Data
mod Scrape
mod Cache
mod Serve
mod Updates
mod Setup
mod Requests
mod Adapters
mod Writes
mod Install
mod Start
mod Consume
mod Sample
mod Fresh
