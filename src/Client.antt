-- ===== src/Client.antt =====
-- pkg/storagemetrics/scraper/client: the HTTP client of one kubelet's /stats/summary.
pub mod Summary
pub mod Address
pub mod Fetch
