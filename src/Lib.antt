-- ===== src/Lib.antt =====
-- schain keeps encrypted environment variables per directory, in a file `.schain` of each, and gives a
-- child process the merge of every vault from the current directory up to the root.
--
-- The parts and the files that model them (paths from the repository's root):
--   expand.go, the references ${...} of a value: Expand.antt with Expand/. scanRefs is `scan_refs`, a
--     walk with the length of the text as fuel, which is enough since a round takes a byte at least;
--     Expand/Segments gives the reading of a value as a grammar.
--   vault.go and the list of expanded keys of expand.go, an opened vault in memory: Vault.antt with
--     Vault/. record is `log`, put and drop keep their names.
--   history.go: History.antt with History/. A command runs from its arguments to the vault that it
--     hands to save; what openNearest returns is an argument.
--   chain.go: Chain.antt with Chain/ is the merge and the path lists, Unlock.antt with Unlock/ is
--     unlockKnown and loadChain, Batch.antt with Batch/ is eachVault and its passes.
--   main.go, the environment of a child: Environ.antt with Environ/.
--   vault.go, the file of a vault: Format.antt with Format/. readVaultFile is `read_vault_file` over
--     `read_vault_bytes` and `parse_vault_file`, decrypt, save and checkUnchanged keep their names.
--   cache.go: Cache.antt with Cache/. tryCache is `try_cache`, with the entry, the clock and
--     openVaultKey as arguments.
--   worktree.go: Worktree.antt with Worktree/ is findWorktree over a file system; Prelude/Paths has the
--     path functions of Go that it calls.
--   main.go, cmdSet: Assign.antt with Assign/, from the arguments to the vault saved.
--   main.go, cmdUnset: Unset.antt.
--   askpass.go with unlock and newPassphrase of main.go: Askpass.antt with Askpass/. term.go:
--     Terminal.antt. A helper's output comes in pieces, a passphrase file is what the file system
--     says of it.
--   cache_linux.go: Keyring.antt with Keyring/, over the answers of the kernel.
--   cache_security.go, shellQuote and fishQuote of subshell.go: Quote.antt with Quote/.
--   chain.go, forEach: Pool.antt with Pool/, the goroutines as steps that come in any order.
--   chain.go, the search for vaults, and findWorktreeFrom of worktree.go: Discover.antt with Discover/.
--     A walk to the root has the length of its path as fuel, which is more than its levels.
--   main.go: Session.antt with Session/ puts the parts together for exec, subshell and reload;
--     Passwd.antt, Remember.antt and Listing.antt, each with its folder, are the commands passwd,
--     remember and forget, and ls; Dispatch.antt is run.
--   chain.go, walkVaults: Walk.antt with Walk/, over the tree of a directory. worktree.go, cmdWorktree:
--     Report.antt with Report/.
--   subshell.go, the start of a shell: Subshell.antt with Subshell/.
--   cache_darwin.go: Keychain.antt, over the answers of the program `security`.
--   vault.go, save as system calls that change the disk: Write.antt with Write/. Several programs that
--     edit one vault: Race.antt with Race/, their steps in any order.
--   vault.go and chain.go, wipe and close: Wipe.antt. The texts that name vaults: Message.antt.
--   main.go, main and run: Program.antt with Program/ composes the commands on one host, from the
--     arguments to the file that is written or the program that is started. The vault files are read
--     twice, `file_at` when a command opens one and `later_at` when it saves, since others may write
--     in between.
--
-- Strings are lists of bytes, maps are association lists, an int is a native number where the code
-- keeps it from being negative and a ℤ where it is read. The loops over typed passphrases recur on the
-- answers that the terminal gives, so they need no fuel. The ways to open a vault, the environment and
-- the JSON of a list of names are arguments, as are the ciphers and the file system. Not modelled here:
-- the texts of usage, the numbers of ioctl requests, the format of dates, the padding of
-- tabwriter, and the order in which Go ranges over a map.
pub mod Prelude
pub mod Fail
pub mod Expand
pub mod Vault
pub mod History
pub mod Chain
pub mod Unlock
pub mod Batch
pub mod Environ
pub mod Format
pub mod Cache
pub mod Worktree
pub mod Assign
pub mod Unset
pub mod Quote
pub mod Askpass
pub mod Terminal
pub mod Keyring
pub mod Pool
pub mod Discover
pub mod Session
pub mod Passwd
pub mod Remember
pub mod Listing
pub mod Dispatch
pub mod Walk
pub mod Report
pub mod Subshell
pub mod Keychain
pub mod Write
pub mod Race
pub mod Message
pub mod Wipe
pub mod Program
mod Tests
