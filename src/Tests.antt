-- ===== src/Tests.antt =====
-- Runs of the definitions on small inputs, and the theorems at inputs that meet their hypotheses.
mod Texts
mod Vaults
mod Chains
mod Files
mod Others
mod Quotes
mod Sources
mod Hosts
mod Disks
mod Programs
mod Finds
