-- ===== src/Tests.antt =====
-- Each theorem at a concrete input, and runs of the queue.
mod Data
mod Queue
mod Net
mod Parts
mod Flow
mod Life
mod Clients
