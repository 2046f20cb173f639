-- ===== src/Vault/Stamps.antt =====
-- No edit of a vault changes the digest of the file that it was opened from.
use schain.Prelude.{◌≡◌, Bool, arith}
use schain.Prelude.Text.{Bytes}
use schain.Vault.{Vault, Mark, put, drop, log, set_expand, store_expand}

pub put-stamp : (m : Mark) (k val : Bytes) (v : Vault) → (put m k val v).stamp ≡ v.stamp
unfolding put log
put-stamp m k val v = ground arith

pub set_expand-stamp : (k : Bytes) (on : Bool) (v : Vault) → (set_expand k on v).stamp ≡ v.stamp
unfolding set_expand store_expand
set_expand-stamp k on v = ground arith

pub drop-stamp : (m : Mark) (k : Bytes) (v : Vault) → (drop m k v).stamp ≡ v.stamp
unfolding drop log set_expand store_expand
drop-stamp m k v = ground arith
