-- ===== src/Secrets/MasterKeyTests.antt =====
-- A keychain in memory and a random source, and the theorem on the master key at them.
use fi_mcp_kit.Base.{
  ◌≡◌, ◌<◌, refl, ap, subst, String, true, false, none, some, [], ◌∷◌, length, All, eq_refl, arith,
}
use fi_mcp_kit.Base.Text.{trim_space}
use fi_mcp_kit.Base.Dict.{Dict, lookup, read, insert, erase, read-insert}
use fi_mcp_kit.Secrets.Store.{Backend}
use fi_mcp_kit.Secrets.FileBackend.{Bytes}
use fi_mcp_kit.Secrets.FileLaws.{some_inj}
use fi_mcp_kit.Secrets.MasterKey.{get_master_key, derive_key}
use fi_mcp_kit.Secrets.MasterKeyLaws.{IsSystem, get_master_key-again}

-- A keychain in memory, which trims what it finds; the random source repeats one byte.
abbrev keychain : Backend (Dict String)
keychain = record {
  name = "keychain";
  read_only = false;
  get = λ k d. some (trim_space (read "" k d));
  list = λ d. none;
  set = λ k v d. (true, insert k v d);
  delete = λ k d. (true, erase k d);
}

abbrev bytes : Bytes
bytes =
    171 ∷ 1 ∷ 2 ∷ 3 ∷ 4 ∷ 5 ∷ 6 ∷ 7 ∷ 8 ∷ 9 ∷ 10 ∷ 11 ∷ 12 ∷ 13 ∷ 14 ∷ 15 ∷ 16 ∷ 17 ∷ 18 ∷ 19 ∷ 20
    ∷ 21 ∷ 22 ∷ 23 ∷ 24 ∷ 25 ∷ 26 ∷ 27 ∷ 28 ∷ 29 ∷ 30 ∷ 31 ∷ []

keychain-IsSystem :
    IsSystem {W = Dict String}
      (λ w n. "")
      (λ w. some keychain)
      (λ w. (some bytes, w))
      (λ passphrase salt. [])
      keychain
keychain-IsSystem = record {
  trims = λ k v w h. ap (λ s. some (trim_space s)) (rw (read-insert, eq_refl));
  apart = λ v w. ap (λ s. some (trim_space s)) (rw read-insert refl);
  set_keeps = λ n v w. refl;
  set_env = λ n v a w. refl;
  random_keeps = λ w. refl;
  random_env = λ w a. refl;
  random_fills = λ w {bytes = b} h.
      subst (λ x. (length x ≡ 32) × All (λ y. y < 256) x) (some_inj h) (omega arith);
}

get_master_key-again_example :
    let start =
      get_master_key {W = Dict String}
        (λ w n. "")
        (λ w. some keychain)
        (λ w. (some bytes, w))
        (λ passphrase salt. []) in
    ((start []).0 ≡ some []) × ((start (start []).1).0 ≡ (start []).0)
unfolding read lookup derive_key trim_space
get_master_key-again_example =
    get_master_key-again (λ w n. "") (λ w. some keychain) (λ w. (some bytes, w))
      (λ passphrase salt. []) [] keychain keychain-IsSystem (refl, refl) refl refl refl refl
