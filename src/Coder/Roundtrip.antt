-- ===== src/Coder/Roundtrip.antt =====
-- What the coder writes it reads back, and it reads nothing else.
use kubebrain.Base.{
  ℕ, suc, ◌+◌, ◌-◌, ◌<◌, ◌≤◌, ◌≡◌, refl, ap, sym, ◌∙◌, append-nil, List, [], ◌∷◌, ◌++◌, true, false,
  length, get_or, take, drop, arith, length-append, take-append_length, All, take-append-drop,
  length-drop, subst, drop-suc, drop-take-append, All-drop,
}
use kubebrain.Base.Bytes.{Bytes, IsByte, equal_refl, equal→eq, big_endian, big_endian_value}
use kubebrain.Base.BigEndian.{
  length-big_endian, big_endian_value-big_endian, big_endian-big_endian_value,
}
use kubebrain.Coder.{
  magic_bytes, split_byte, uint64_mod, encode_object_key, decoded, decode, parsed, parse_revision,
}

length-encode_object_key :
    (key : Bytes) (rev : ℕ) → length (encode_object_key key rev) ≡ length key + 13
unfolding encode_object_key
length-encode_object_key key rev =
    omega (arith, length-append key (split_byte ∷ big_endian 8 rev), length-big_endian 8 rev)

get_or-append_length {ℓ} :
    {A : Type ℓ} (xs ys : List A) (y d : A) → get_or (xs ++ y ∷ ys) (length xs) d ≡ y
get_or-append_length [] ys y d = refl
get_or-append_length (x ∷ xs) ys y d = get_or-append_length xs ys y d

drop-append_suc-length {ℓ} :
    {A : Type ℓ} (xs ys : List A) (y : A) → drop (suc (length xs)) (xs ++ y ∷ ys) ≡ ys
drop-append_suc-length [] ys y = refl
drop-append_suc-length (x ∷ xs) ys y = drop-append_suc-length xs ys y

module _ (key : Bytes) (rev : ℕ) where
  take-magic : take 4 (encode_object_key key rev) ≡ magic_bytes
  unfolding encode_object_key
  take-magic = refl

  split-read :
      get_or (encode_object_key key rev) (suc (suc (suc (suc (length key))))) 0 ≡ split_byte
  unfolding encode_object_key
  split-read = get_or-append_length key (big_endian 8 rev) split_byte 0

  user_key-read :
      drop 4 (take (suc (suc (suc (suc (length key))))) (encode_object_key key rev)) ≡ key
  unfolding encode_object_key
  user_key-read = take-append_length key (split_byte ∷ big_endian 8 rev)

  revision-read :
      drop (suc (suc (suc (suc (suc (length key)))))) (encode_object_key key rev) ≡ big_endian 8 rev
  unfolding encode_object_key
  revision-read = drop-append_suc-length key (big_endian 8 rev) split_byte

-- A key with the right marks decodes to the bytes between and behind them.
decode_of_marks :
    (b : Bytes) (n : ℕ)
    → length b ≡ n + 13
    → take 4 b ≡ magic_bytes
    → get_or b (suc (suc (suc (suc n)))) 0 ≡ split_byte
    → decode b
      ≡ decoded
          (drop 4 (take (suc (suc (suc (suc n)))) b))
          (big_endian_value (drop (suc (suc (suc (suc (suc n))))) b))
unfolding decode
decode_of_marks b n e m s =
    let e9 : n + 13 - 9 ≡ suc (suc (suc (suc n))) = omega arith in
    let e8 : n + 13 - 8 ≡ suc (suc (suc (suc (suc n)))) = omega arith in
    rw (e, e9, e8, m, s, equal_refl magic_bytes) (ground arith)

-- Decode reads back the user key and the revision that EncodeObjectKey was given, for every user
-- key and every uint64 revision.
pub decode-encode_object_key :
    (key : Bytes) (rev : ℕ)
    → rev < uint64_mod
    → decode (encode_object_key key rev) ≡ decoded key rev
decode-encode_object_key key rev h =
    decode_of_marks (encode_object_key key rev) (length key) (length-encode_object_key key rev)
      (take-magic key rev) (split-read key rev)
    ∙ ap
        (λ k. decoded k (
          big_endian_value
            (drop (suc (suc (suc (suc (suc (length key)))))) (encode_object_key key rev))))
        (user_key-read key rev)
    ∙ ap (λ l. decoded key (big_endian_value l)) (revision-read key rev)
    ∙ ap (decoded key) (big_endian_value-big_endian 8 rev h)

-- The conditions under which Decode returns a key.
record HasMarks (b key : Bytes) (rev : ℕ) : Type 0 where
  long : 13 ≤ length b
  starts : take 4 b ≡ magic_bytes
  split : get_or b (length b - 9) 0 ≡ split_byte
  middle : drop 4 (take (length b - 9) b) ≡ key
  tail : big_endian_value (drop (length b - 8) b) ≡ rev

decode-HasMarks : (b key : Bytes) (rev : ℕ) → decode b ≡ decoded key rev → HasMarks b key rev
unfolding decode
decode-HasMarks b key rev h = record {
  long = ground arith;
  starts = ground (arith, equal→eq (take 4 b) magic_bytes);
  split = ground arith;
  middle = ground arith;
  tail = ground arith;
}

-- Decode accepts only what EncodeObjectKey produces: if it returns a user key and a revision for
-- a key made of bytes, that key is their encoding.
pub encode_object_key-decode :
    (b key : Bytes) (rev : ℕ)
    → All IsByte b
    → decode b ≡ decoded key rev
    → encode_object_key key rev ≡ b
unfolding encode_object_key
encode_object_key-decode b key rev bytes h =
    let m : HasMarks b key rev = decode-HasMarks b key rev h in
    let n : ℕ = length b in
    let last : List ℕ = drop (n - 8) b in
    let width : length last ≡ 8 = omega (arith, length-drop (n - 8) b, m.long) in
    let revision : big_endian 8 rev ≡ last = rw (← m.tail) (
      subst (λ k. big_endian k (big_endian_value last) ≡ last) width
        (big_endian-big_endian_value last (All-drop IsByte (n - 8) b bytes))) in
    let e8 : suc (n - 9) ≡ n - 8 = omega (arith, m.long) in
    ap (λ t. t ++ (key ++ (split_byte ∷ big_endian 8 rev))) (sym m.starts)
    ∙ rw (revision, ← m.middle, ← m.split)
        (ap (λ l. take 4 b ++ (drop 4 (take (n - 9) b) ++ l))
            (ap (λ k. get_or b (n - 9) 0 ∷ drop k b) (sym e8)
              ∙ sym (drop-suc b (n - 9) 0 (omega (arith, m.long))))
          ∙ ap (λ l. take 4 b ++ l) (drop-take-append b 4 (n - 9) (omega (arith, m.long)))
          ∙ take-append-drop 4 b)

take-revision : (rev : ℕ) (ys : Bytes) → take 8 (big_endian 8 rev ++ ys) ≡ big_endian 8 rev
take-revision rev ys =
    subst (λ k. take k (big_endian 8 rev ++ ys) ≡ big_endian 8 rev) (length-big_endian 8 rev)
      (take-append_length (big_endian 8 rev) ys)

-- ParseRevision reads back what uint64ToBytes wrote: eight bytes are a live revision, and the same
-- bytes with one more byte, the deletion flag, are a deleted one.
pub parse_revision-big_endian :
    (rev flag : ℕ)
    → rev < uint64_mod
    → (parse_revision (big_endian 8 rev) ≡ parsed rev false)
      × (parse_revision (big_endian 8 rev ++ flag ∷ []) ≡ parsed rev true)
unfolding parse_revision
parse_revision-big_endian rev flag h = (
  rw (length-big_endian 8 rev, read [] (append-nil _)) refl,
  rw (length-flagged, read (flag ∷ []) refl) refl,
)
  where
    length-flagged : length (big_endian 8 rev ++ flag ∷ []) ≡ 9
    length-flagged =
        omega (arith, length-append (big_endian 8 rev) (flag ∷ []), length-big_endian 8 rev)

    read : (ys : Bytes) {b : Bytes} → big_endian 8 rev ++ ys ≡ b → big_endian_value (take 8 b) ≡ rev
    read ys e =
        ap (λ b. big_endian_value (take 8 b)) (sym e)
        ∙ ap big_endian_value (take-revision rev ys)
        ∙ big_endian_value-big_endian 8 rev h
