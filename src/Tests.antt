-- ===== src/Tests.antt =====
-- Tests on concrete inputs, and the theorems at inputs where their conditions hold.
mod Fixtures
mod Delivery
mod Starting
mod Publishing
mod Requests
mod Wiring
mod HeaderMaps
mod Exchange
mod Reaching
mod Closing
mod Adapting
mod Receiving
mod Services
mod Asking
mod Capturing
