-- ===== src/Tests.antt =====
-- Each theorem with conditions, applied to concrete values.
mod Cbox
mod Status
mod Link
mod Mqtt
mod Blocks
mod Commands
mod Api
mod Flash
mod Times
mod Payloads
mod Mock
mod Sync
