-- ===== src/Tests.antt =====
-- Runs of the theorems at concrete inputs.
mod Imap
mod Api
mod Store
mod Sync
mod Smtp
mod Mailbox
mod Send
mod Mime
