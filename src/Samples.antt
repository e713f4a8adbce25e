-- ===== src/Samples.antt =====
-- Tests, and each theorem at a concrete input.
mod Codec
mod Tree
mod Blobs
mod Names
mod Paths
mod Keys
mod Uploads
mod Runs
mod Pairings
mod Signers
mod Ceremonies
mod Codes
mod Confirmations
mod NextRuns
