-- ===== src/Examples.antt =====
-- Concrete inputs at which the theorems are applied, and runs of the code.
pub mod Shop
mod Stocks
mod Checkouts
pub mod Hooks
mod Tokens
mod Expiries
mod Scans
pub mod Team
mod Season
pub mod Forms
mod Guests
mod Passwords
mod Images
mod Providers
mod Fairs
mod Visitors
