-- ===== src/Tests.antt =====
-- The theorems at concrete inputs: a small cluster, and services that answer from the history.
mod Data
mod Gateway
mod Shards
mod Scaler
mod SecurityConfig
mod Webhook
mod Upgrade
mod Restart
mod Red
mod Objects
