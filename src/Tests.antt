-- ===== src/Tests.antt =====
-- Sample states, runs of the model on them, and the theorems at such states.
mod Tokens
mod Samples
mod Lifecycle
mod Ports
mod Workers
mod Api
mod Accounts
mod Admin
mod Images
mod Processes
mod System
mod RateLimit
