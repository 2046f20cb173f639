-- ===== src/Program/Writes.antt =====
-- main.go, run: which files the program writes, whatever its arguments are.
use schain.Vault.{Vault}
