-- ===== src/Tests.antt =====
-- Concrete instances of the interfaces, runs of the code over them, and the theorems at those data.
mod Formats
mod Samples
mod Storage
mod Fees
mod Chain
mod Events
mod Tokens
mod Exchange
mod Node
mod Peers
mod Server
mod Refinement
mod Lifecycle
mod Following
mod Startup
mod Builder
mod Start
mod Background
mod Settling
mod Paying
