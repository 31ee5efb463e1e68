-- ===== src/Coder/Tests.antt =====
-- Runs of the coder, and its theorems at concrete keys.
use kubebrain.Base.{◌≡◌, refl, [], ◌∷◌, ◌++◌, true, false, arith, Ordering}
use kubebrain.Base.Bytes.{Bytes, cmp, equal, big_endian, big_endian_value}
use kubebrain.Coder.{encode_object_key, decoded, panic, bad_split, decode, parsed, parse_revision}
use kubebrain.Coder.Roundtrip.{
  decode-encode_object_key, encode_object_key-decode, parse_revision-big_endian,
}
use kubebrain.Coder.KeyOrder.{cmp-encode_object_key}

-- the user key "/a"
abbrev slash_a : Bytes
slash_a = b'/' ∷ b'a' ∷ []

abbrev encoded : Bytes
encoded = 0x57 ∷ 0xfb ∷ 0x80 ∷ 0x8b ∷ b'/' ∷ b'a' ∷ b'$' ∷ 0 ∷ 0 ∷ 0 ∷ 0 ∷ 0 ∷ 0 ∷ 1 ∷ 2 ∷ []

encode_slash_a : encode_object_key slash_a 258 ≡ encoded
unfolding encode_object_key big_endian
encode_slash_a = refl

decode-encoded : decode encoded ≡ decoded slash_a 258
unfolding decode equal big_endian_value
decode-encoded = refl

decode_faults :
    (decode (1 ∷ []) ≡ panic)
    × (decode (0x57 ∷ 0xfb ∷ 0x80 ∷ 0x8b ∷ 0 ∷ 0 ∷ 0 ∷ 0 ∷ 0 ∷ []) ≡ bad_split)
unfolding decode equal big_endian_value
decode_faults = (refl, refl)

decode-encode_object_key_example : decode (encode_object_key slash_a 258) ≡ decoded slash_a 258
decode-encode_object_key_example = decode-encode_object_key slash_a 258 (omega arith)

encode_object_key-decode_example : encode_object_key slash_a 258 ≡ encoded
encode_object_key-decode_example =
    encode_object_key-decode encoded slash_a 258 (omega arith) decode-encoded

parse_revision-big_endian_example :
    (parse_revision (big_endian 8 7) ≡ parsed 7 false)
    × (parse_revision (big_endian 8 7 ++ 0 ∷ []) ≡ parsed 7 true)
parse_revision-big_endian_example = parse_revision-big_endian 7 0 (omega arith)

cmp-encode_object_key_example :
    cmp (encode_object_key slash_a 9) (encode_object_key (b'/' ∷ b'b' ∷ []) 3) ≡ Ordering.lt
unfolding cmp
cmp-encode_object_key_example =
    cmp-encode_object_key slash_a (b'/' ∷ b'b' ∷ []) 9 3 (omega arith) (omega arith) (omega arith)
      (omega arith)

-- Without the condition on the bytes of a user key, the storage order is not that of the
-- user keys: "a!" sorts before "a", although "a" is the smaller user key.
out_of_order :
    cmp (encode_object_key (b'a' ∷ b'!' ∷ []) 1) (encode_object_key (b'a' ∷ []) 1) ≡ Ordering.lt
unfolding cmp encode_object_key
out_of_order = refl
