-- ===== src/Witness.antt =====
-- Runs of the theorems at concrete numbers, code and modules.
mod Sample
mod Codec
mod Code
mod Modules
mod Sections
mod Load
mod Content
mod Imports
mod Chain
mod Views
