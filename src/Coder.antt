-- ===== src/Coder.antt =====
-- pkg/backend/coder: the internal keys of an object (normal.go) and the revision values (rev.go).
pub mod Roundtrip
pub mod KeyOrder
mod Tests
use kubebrain.Base.{
  ℕ, ◌+◌, ◌-◌, ◌^◌, List, [], ◌∷◌, ◌++◌, Bool, true, false, not, length, get_or, take, drop, ltb,
  ◌==◌, if◌then◌else◌,
}
use kubebrain.Base.Bytes.{Bytes, equal, big_endian, big_endian_value}

abbrev pub magic_bytes : Bytes
magic_bytes = 0x57 ∷ 0xfb ∷ 0x80 ∷ 0x8b ∷ []

abbrev pub split_byte : ℕ
split_byte = b'$'

-- a revision is a uint64
abbrev pub uint64_mod : ℕ
uint64_mod = 256 ^ 8

-- `{magic}{raw_key}{split_key}{revision}`: the four writes fill the buffer without a gap.
unfoldable pub encode_object_key : Bytes → ℕ → Bytes
encode_object_key user_key revision =
    magic_bytes ++ (user_key ++ (split_byte ∷ big_endian 8 revision))

unfoldable pub encode_revision_key : Bytes → Bytes
unfolding encode_object_key
encode_revision_key key = encode_object_key key 0

-- What `Decode` returns; `panic` is a slice index out of range.
pub data Decoded : Type 0 where
  decoded : Bytes → ℕ → Decoded
  bad_magic : Decoded
  bad_split : Decoded
  panic : Decoded

unfoldable pub decode : Bytes → Decoded
decode key =
    let n = length key in
    if ltb n 4
    then panic
    else if not (equal (take 4 key) magic_bytes)
    then bad_magic
    else if ltb n 9
    then panic
    else if not (get_or key (n - 9) 0 == split_byte)
    then bad_split
    else if ltb n 13
    then panic
    else decoded (drop 4 (take (n - 9) key)) (big_endian_value (drop (n - 8) key))

-- rev.go: a revision value carries a deletion flag exactly if it has a ninth byte.
pub data RevisionValue : Type 0 where
  parsed : (rev : ℕ) (is_tombstone : Bool) → RevisionValue
  invalid_format : RevisionValue

abbrev pub revision_value_length : ℕ
revision_value_length = 8

abbrev pub revision_value_length_with_deletion_flag : ℕ
revision_value_length_with_deletion_flag = 9

unfoldable pub parse_revision : Bytes → RevisionValue
parse_revision bs =
    if length bs == revision_value_length
    then parsed (big_endian_value (take 8 bs)) false
    else if length bs == revision_value_length_with_deletion_flag
    then parsed (big_endian_value (take 8 bs)) true
    else invalid_format
