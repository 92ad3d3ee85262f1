-- ===== src/Examples.antt =====
-- The theorems at concrete buffers, and runs of the definitions.
mod Editing
mod Searching
mod Yanking
mod Arguments
mod Indenting
mod Commands
mod Windows
mod Abbreviations
