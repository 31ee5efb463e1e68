-- ===== src/Coder/KeyOrder.antt =====
-- The internal keys of one object are contiguous, ordered by revision.
use kubebrain.Base.{ℕ, ◌<◌, ◌≡◌, ◌∙◌, [], ◌∷◌, ◌++◌, arith, All, compare}
use kubebrain.Base.Bytes.{Bytes, or_else, cmp, cmp-append_same, big_endian}
use kubebrain.Base.BigEndian.{cmp-big_endian}
use kubebrain.Coder.{magic_bytes, split_byte, uint64_mod, encode_object_key}

-- The coder's condition on user keys: every byte is greater than the split byte.
abbrev pub IsUserKey : Bytes → Type 0
IsUserKey = All (λ c. split_byte < c)

cmp-suffix :
    (j k : Bytes) (q r : ℕ)
    → IsUserKey j
    → IsUserKey k
    → q < uint64_mod
    → r < uint64_mod
    → cmp (j ++ split_byte ∷ big_endian 8 q) (k ++ split_byte ∷ big_endian 8 r)
      ≡ or_else (cmp j k) (compare q r)
unfolding cmp
cmp-suffix [] [] q r hj hk hq hr = cmp-big_endian 8 q r hq hr
cmp-suffix [] (y ∷ k) q r hj hk hq hr = ground (arith, hk.0)
cmp-suffix (x ∷ j) [] q r hj hk hq hr = ground (arith, hj.0)
cmp-suffix (x ∷ j) (y ∷ k) q r hj hk hq hr = ground (arith, cmp-suffix j k q r hj.1 hk.1 hq hr)

-- For user keys whose bytes all exceed the split byte, the storage order of object keys is the
-- order of the user keys, and that of the revisions within one user key: the versions of an object
-- stand together, the oldest first, and no other object's key stands between them.
pub cmp-encode_object_key :
    (j k : Bytes) (q r : ℕ)
    → IsUserKey j
    → IsUserKey k
    → q < uint64_mod
    → r < uint64_mod
    → cmp (encode_object_key j q) (encode_object_key k r) ≡ or_else (cmp j k) (compare q r)
unfolding encode_object_key
cmp-encode_object_key j k q r hj hk hq hr =
    cmp-append_same magic_bytes (j ++ split_byte ∷ big_endian 8 q)
      (k ++ split_byte ∷ big_endian 8 r)
    ∙ cmp-suffix j k q r hj hk hq hr
