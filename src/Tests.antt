-- ===== src/Tests.antt =====
-- The theorems at concrete inputs.
mod Wire
mod Connection
mod Sessions
mod Payloads
mod Agents
mod Pools
mod Controllers
mod Registrations
mod Policies
mod Orders
mod Stores
mod Pages
mod Links
