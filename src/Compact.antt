-- ===== src/Compact.antt =====
-- pkg/backend/compact.go: the revision that a compaction may go up to, and its record in the storage;
-- and the end of a prefix's range, PrefixEnd of pkg/backend/util.go.
pub mod Bounds
pub mod Prefix
mod Tests
use kubebrain.Base.{
  ℕ, ◌+◌, ◌-◌, List, [], ◌∷◌, ◌++◌, Option, none, some, Bool, true, false, not, ◌&&◌, ◌||◌, length,
  take, ltb, ◌==◌, if◌then◌else◌,
}
use kubebrain.Base.Bytes.{Bytes, big_endian, big_endian_value}
use kubebrain.Storage.{
  Error, key_not_found, put_if_not_exist, cas, Fetch, found, fetch_failed, KvStorage,
}

abbrev pub min_uint64 : ℕ → ℕ → ℕ
min_uint64 a b = if ltb a b then a else b

-- `Compact`: up to the published revision, and below the first uncertain one, which is 0 if there is
-- none.
unfoldable pub compact_revision : (revision cur_revision uncertain_rev : ℕ) → ℕ
compact_revision revision cur_revision uncertain_rev =
    let bounded = if revision == 0 || ltb cur_revision revision then cur_revision else revision in
    if not (uncertain_rev == 0) then min_uint64 (uncertain_rev - 1) bounded else bounded

abbrev pub slash_compact_key : Bytes
slash_compact_key =
    b'/' ∷ b'c' ∷ b'o' ∷ b'm' ∷ b'p' ∷ b'a' ∷ b'c' ∷ b't' ∷ b'_' ∷ b'k' ∷ b'e' ∷ b'y' ∷ []

abbrev pub get_compact_key : Bytes → Bytes
get_compact_key prefix = prefix ++ slash_compact_key

module _ (K : KvStorage) where
  -- With the stored record, empty if there is none; `none` is the panic of a record of less than 8
  -- bytes.
  unfoldable pub write_compact_record :
      (key : Bytes) (revision : ℕ) (val : Bytes) → K.State → Option (Option Error × K.State)
  write_compact_record key revision val s =
      if ltb 0 (length val)
      then (if ltb (length val) 8
          then none
          else if ltb revision (big_endian_value (take 8 val))
          then some (none, s)
          else some (K.commit (cas key (big_endian 8 revision) val 0 ∷ []) s))
      else some (K.commit (put_if_not_exist key (big_endian 8 revision) 0 ∷ []) s)

  unfoldable pub compact_record_read :
      (key : Bytes) (revision : ℕ) → Fetch → K.State → Option (Option Error × K.State)
  unfolding write_compact_record
  compact_record_read key revision (found val) s = write_compact_record key revision val s
  compact_record_read key revision (fetch_failed key_not_found) s =
      write_compact_record key revision [] s
  compact_record_read key revision (fetch_failed e) s = some (some e, s)

  unfoldable pub set_compact_record :
      (prefix : Bytes) (revision : ℕ) → K.State → Option (Option Error × K.State)
  unfolding compact_record_read
  set_compact_record prefix revision s =
      let (val, s') = K.get (get_compact_key prefix) s in
      compact_record_read (get_compact_key prefix) revision val s'

-- The loop of `PrefixEnd` from the back: the last byte that can be raised is, and what stands behind
-- it is cut off; `none` if there is none.
unfoldable pub raise_last : Bytes → Option Bytes
raise_last [] = none
raise_last (b ∷ bs) = elim (raise_last bs) [
  | some end ↦ some (b ∷ end)
  | none ↦ if ltb b 255 then some ((b + 1) ∷ []) else none
]

abbrev pub no_prefix_end : Bytes
no_prefix_end = 0 ∷ []

unfoldable pub prefix_end : Bytes → Bytes
unfolding raise_last
prefix_end prefix = elim (raise_last prefix) [ none ↦ no_prefix_end | some end ↦ end ]
