-- ===== src/Tests.antt =====
-- Concrete instances of the crates and runs of the code.
mod Rlp
mod Crates
mod Keys
mod Samples
mod Updates
mod Mixed
mod Foreign
mod Suite
mod Batches
mod Fields
mod Codecs
mod KeyTypes
mod Calls
mod Others
