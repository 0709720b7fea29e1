-- ===== src/Tests.antt =====
-- Concrete runs of the program, at which the theorems apply.
mod Data
mod Handlers
mod Uploads
mod Deployment
mod CommandLine
mod Process
mod Retry
mod Concurrent
mod Stores
mod Histories
mod Edges
