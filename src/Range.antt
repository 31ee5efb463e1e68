-- ===== src/Range.antt =====
-- pkg/backend/range.go: reads of one key at a revision, over a storage engine.
pub mod Page
pub mod Lists
pub mod Pages
use kubebrain.Base.{ℕ, List, [], ◌∷◌, Option, none, some, not, ◌||◌, ltb, ◌==◌, if◌then◌else◌}
use kubebrain.Base.Bytes.{Bytes, equal}
use kubebrain.Message.{KeyValue}
use kubebrain.Coder.{encode_object_key, Decoded, decoded, bad_magic, bad_split, panic, decode}
use kubebrain.Tso.{Tso, get_revision}
use kubebrain.Storage.{
  Error, key_not_found, Entry, Iterated, listed, iter_failed, KvStorage, or_nil,
}

abbrev pub tomb_stone_bytes : Bytes
tomb_stone_bytes = b't' ∷ b'o' ∷ b'm' ∷ b'b' ∷ b's' ∷ b't' ∷ b'o' ∷ b'n' ∷ b'e' ∷ []

-- math.MaxUint64
abbrev pub max_revision : ℕ
max_revision = 18446744073709551615

-- the three results of a read
pub record Value : Type 0 where
  pub val : Option Bytes
  pub mod_revision : ℕ
  pub err : Option Error

abbrev pub no_value : Error → Value
no_value e = record { val = none; mod_revision = 0; err = some e }

-- What the decoded internal key of an entry, and its value, say of a key; `none` is the panic of the
-- decoder.
unfoldable pub read_decoded : Bytes → Decoded → Bytes → Option Value
read_decoded key panic val = none
read_decoded key (decoded user_key mod_rev) val = some (
    if mod_rev == 0 || not (equal user_key key)
    then no_value key_not_found
    else record { val = some val; mod_revision = mod_rev; err = none })
read_decoded key bad_magic val = some (no_value key_not_found)
read_decoded key bad_split val = some (no_value key_not_found)

unfoldable pub read_first : Bytes → List Entry → Option Error → Option Value
unfolding read_decoded
read_first key [] none = some (no_value key_not_found)
read_first key [] (some e) = some (no_value e)
read_first key ((k, v) ∷ entries) ends = read_decoded key (decode k) v

unfoldable pub read_iterated : Bytes → Iterated → Option Value
unfolding read_first
read_iterated key (iter_failed e) = some (no_value e)
read_iterated key (listed l) = read_first key l.entries l.ends

-- A tombstone is no value.
unfoldable pub user_visible : Value → Value
user_visible v =
    if equal (or_nil v.val) tomb_stone_bytes
    then record { val = none; mod_revision = v.mod_revision; err = some key_not_found }
    else v

abbrev pub map_visible : Option Value → Option Value
map_visible none = none
map_visible (some v) = some (user_visible v)

-- `reply` and the failed calls of an API
pub data Result (A : Type 0) : Type 0 where
  reply : A → Result A
  failed : Error → Result A

pub record GetResponse : Type 0 where
  pub header_revision : ℕ
  pub kv : Option KeyValue

module _ (K : KvStorage) where
  -- The newest version up to a revision, or of all for 0: the first entry of the descending range
  -- from the key's version of that revision to its revision key.
  unfoldable pub get_internal_val : (key : Bytes) (revision : ℕ) → K.State → Option Value × K.State
  unfolding read_iterated
  get_internal_val key revision s =
      let start = if revision == 0 then max_revision else revision in
      let (it, s') = K.iter (encode_object_key key start) (encode_object_key key 0) 0 1 s in
      (read_iterated key it, s')

  unfoldable pub get : (key : Bytes) (revision : ℕ) → K.State → Option Value × K.State
  unfolding get_internal_val user_visible
  get key revision s = let (v, s') = get_internal_val key revision s in (map_visible v, s')

-- The answer to a get of what was read; only the bare error is taken for a missing key.
unfoldable pub get_reply : (key : Bytes) (cur_rev : ℕ) → Value → Result GetResponse
get_reply key cur_rev v = elim v.err [
  | some key_not_found ↦ reply (record { header_revision = cur_rev; kv = none })
  | some e ↦ failed e
  | none ↦ reply (record {
    header_revision = if ltb cur_rev v.mod_revision then v.mod_revision else cur_rev;
    kv = elim v.val [
      | none ↦ none
      | some val ↦ some (record { key = key; value = val; revision = v.mod_revision })
    ];
  })
]

module _ (K : KvStorage) where
  -- `Get` of the backend; `none` is a panic.
  unfoldable pub get_request :
      (key : Bytes) (revision : ℕ) → Tso → K.State → Option (Result GetResponse) × K.State
  unfolding get get_reply get_revision
  get_request key revision n s =
      let (v, s') = get K key revision s in
      (elim v [ none ↦ none | some w ↦ some (get_reply key (get_revision n) w) ], s')
