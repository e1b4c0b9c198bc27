-- ===== src/Tests.antt =====
-- The development's theorems at concrete inputs.
mod Buckets
mod Data
mod Objects
mod Database
mod Sections
mod Requests
mod Uploads
mod Runs
mod Ranges
mod Readable
mod Startups
mod Vacuums
