-- ===== src/Aggregator/Collector/Reload.antt =====
-- What `load_persisted` finds of the files that `persist_receipt` writes.
use craftec_core.Aggregator.Collector.{Directory, Externals, ReceiptCollector}
use craftec_core.Aggregator.Collector.Files.{
  pool_prefix, log_suffix, receipts_extension, split_last_dot, extension_of, extension, is_receipts,
  filename, load_contents, load_files, load_entries, load_persisted,
}
use craftec_core.Prelude.{
  ℕ, if◌then◌else◌, false, none, some, List, [], ◌∷◌, ◌++◌, map, append_assoc, Byte, u8, key_eq,
  ◌≡◌, refl, ap, ◌∙◌, sym,
}

-- `b".receipts"`, a dot, and `b"log"`
abbrev before_log : List Byte
before_log = map u8 (46 ∷ 114 ∷ 101 ∷ 99 ∷ 101 ∷ 105 ∷ 112 ∷ 116 ∷ 115 ∷ [])

abbrev log : List Byte
log = map u8 (108 ∷ 111 ∷ 103 ∷ [])

split_last_dot-append :
    (name after : List Byte)
    → split_last_dot after ≡ none
    → split_last_dot (name ++ u8 46 ∷ after) ≡ some (name, after)
unfolding split_last_dot u8
split_last_dot-append [] after e = rw e refl
split_last_dot-append (b ∷ name) after e = rw (split_last_dot-append name after e) refl

module _ {Disk : Type 0} (lib : Externals Disk) where
  is_receipts-filename : (pool : List Byte) → is_receipts (extension (filename lib pool)) ≡ false
  unfolding log_suffix receipts_extension split_last_dot u8 pool_prefix key_eq
  is_receipts-filename pool =
      let name : List Byte = pool_prefix ++ lib.encode pool ++ before_log in
      let parts : filename lib pool ≡ name ++ u8 46 ∷ log =
        sym (ap (◌++◌ pool_prefix) (append_assoc (lib.encode pool) before_log (u8 46 ∷ log))) in
      ap (λ n. is_receipts (extension n)) parts
      ∙ ap (λ o. is_receipts (extension_of o)) (split_last_dot-append name log refl)
      ∙ refl

  load_files-filename :
      (disk : Disk) (dir : Directory) (pools : List (List Byte)) (state : ReceiptCollector × ℕ)
      → load_files lib disk dir (map (filename lib) pools) state ≡ state
  unfolding load_files
  load_files-filename disk dir [] state = refl
  load_files-filename disk dir (pool ∷ pools) state =
      let name : List Byte = filename lib pool in
      ap
        (λ found.
          load_files lib disk dir (map (filename lib) pools)
            (if found then load_contents lib (lib.read dir name disk) state else state))
        (is_receipts-filename pool)
      ∙ load_files-filename disk dir pools state

  -- If all the files of a directory have the names that `persist_receipt` gives them, then
  -- `load_persisted` loads nothing from it.
  pub load_persisted-filename :
      (disk : Disk) (dir : Directory) (pools : List (List Byte)) (s : ReceiptCollector)
      → lib.read_dir dir disk ≡ some (map (filename lib) pools)
      → load_persisted lib disk dir s ≡ (s, 0)
  unfolding load_persisted
  load_persisted-filename disk dir pools s listed =
      ap (λ o. load_entries lib disk dir o s) listed ∙ load_files-filename disk dir pools (s, 0)
