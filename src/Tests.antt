-- ===== src/Tests.antt =====
-- The theorems of the development at concrete inputs.
mod Metadata
mod Text
mod Names
mod Channels
mod Tables
mod Caches
mod Gobs
mod Subscribers
mod Xlates
mod Events
mod Requests
mod Appends
mod Calls
