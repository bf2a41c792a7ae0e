-- ===== src/Tests.antt =====
-- The theorems at concrete inputs, on a workload with two disks and two files.
mod Sample
mod Store
mod Control
mod Setup
mod Storage
mod Config
mod Text
mod Numbers
