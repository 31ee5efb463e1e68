-- ===== src/Election.antt =====
-- pkg/backend/election/election.go: the leader's record in the storage, as the lock of a leader
-- election. The record is the client library's, and its text the encoding of that record, so both are
-- arguments. A candidate's variables are its lock; the storage is shared by all candidates.
pub mod Exclusion
mod Tests
use kubebrain.Base.{ℕ, List, [], ◌∷◌, ◌++◌, Option, none, some, ◌==◌, if◌then◌else◌}
use kubebrain.Base.Bytes.{Bytes}
use kubebrain.Storage.{
  Error, other, key_not_found, put_if_not_exist, cas, Fetch, found, fetch_failed, KvStorage,
}

-- {prefix}/election
abbrev pub get_election_key : (prefix : Bytes) → Bytes
get_election_key prefix =
    prefix ++ b'/' ∷ b'e' ∷ b'l' ∷ b'e' ∷ b'c' ∷ b't' ∷ b'i' ∷ b'o' ∷ b'n' ∷ []

-- json.Marshal and json.Unmarshal of the record; `none` is an error.
pub record Encoding (Ler : Type 0) : Type 0 where
  pub marshal : Ler → Option Bytes
  pub unmarshal : Bytes → Option Ler

abbrev pub bad_json : Error
bad_json = other 7

abbrev pub lock_not_found : Error
lock_not_found = other 8

abbrev pub not_initialized : Error
not_initialized = other 9

module _ {Ler : Type 0} (E : Encoding Ler) (K : KvStorage) (key : Bytes) where
  pub record ResourceLock : Type 0 where
    pub ler : Ler
    pub last_val : Bytes
    pub tso : ℕ

  -- What a call leaves: its error, the lock and the storage.
  abbrev pub Outcome : Type 0
  Outcome = Option Error × ResourceLock × K.State

  -- The value is kept even if it cannot be read.
  unfoldable pub get_record : ResourceLock → Fetch × K.State → Outcome
  get_record l (fetch_failed key_not_found, s) = (some lock_not_found, l, s)
  get_record l (fetch_failed e, s) = (some e, l, s)
  get_record l (found val, s) = elim (E.unmarshal val) [
    | none ↦ (some bad_json, record l { last_val = val }, s)
    | some ler ↦ (none, record { ler = ler; last_val = val; tso = l.tso }, s)
  ]

  -- The timestamp is set to what the engine gave, whether it failed or not.
  unfoldable pub get_tso : Outcome → Outcome
  get_tso (some e, l, s) = (some e, l, s)
  get_tso (none, l, s) =
      let ((tso, err), s') = K.get_timestamp_oracle s in (err, record l { tso = tso }, s')

  -- `Get`: its record is that of the lock.
  unfoldable pub get : ResourceLock → K.State → Outcome
  unfolding get_record get_tso
  get l s = get_tso (get_record l (K.get key s))

  unfoldable pub created : (val : Bytes) → ResourceLock → Option Error × K.State → Outcome
  unfolding get_tso
  created val l (some e, s) = (some e, l, s)
  created val l (none, s) = get_tso (none, record l { last_val = val }, s)

  unfoldable pub create : Ler → ResourceLock → K.State → Outcome
  unfolding created
  create ler l s = elim (E.marshal ler) [
    | none ↦ (some bad_json, l, s)
    | some val ↦ created val l (K.commit (put_if_not_exist key val 0 ∷ []) s)
  ]

  -- The value that is written is not kept as the last one.
  unfoldable pub updated : ResourceLock → Option Error × K.State → Outcome
  unfolding get_tso
  updated l (err, s) = get_tso (err, l, s)

  unfoldable pub update_marshalled : Option Bytes → ResourceLock → K.State → Outcome
  unfolding updated
  update_marshalled none l s = (some bad_json, l, s)
  update_marshalled (some val) l s = updated l (K.commit (cas key val l.last_val 0 ∷ []) s)

  unfoldable pub update : Ler → ResourceLock → K.State → Outcome
  unfolding update_marshalled
  update ler l s =
      if l.tso == 0 then (some not_initialized, l, s) else update_marshalled (E.marshal ler) l s
