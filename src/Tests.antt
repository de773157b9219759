-- ===== src/Tests.antt =====
-- The theorems at concrete inputs, and runs of the definitions.
mod Masks
mod Findings
mod Stores
mod Requests
mod Tokens
mod Proxy
mod Config
mod Redis
mod Labels
mod Policies
