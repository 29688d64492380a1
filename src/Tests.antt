-- ===== src/Tests.antt =====
-- Runs of the model on small inputs, and the theorems at concrete inputs.
mod Samples
mod Writes
mod Feed
mod Indexing
mod Repeats
mod Searching
mod Calling
mod Promoting
mod Improving
mod Reviewing
mod Piloting
mod Telling
mod Syncing
