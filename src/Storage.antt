-- ===== src/Storage.antt =====
-- pkg/storage: the interface of a storage engine (interface.go) and its errors (errors.go).
-- A value that is stored is not nil: `none` is Go's nil where a value is looked up.
pub mod Contents
pub mod Effect
use kubebrain.Base.{ℕ, List, [], ◌∷◌, Option, none, some, Bool, true, false, ◌||◌, if◌then◌else◌}
use kubebrain.Base.Bytes.{Bytes}

-- The errors that the code tells apart; `other` is any further error, of an engine or a context.
pub data Error : Type 0 where
  key_not_found : Error
  cas_failed : Error
  conflict : (idx : ℕ) (key : Bytes) (val : Option Bytes) → Error
  uncertain_result : Error
  uncertain : (origin : Error) → Error
  unavailable : Error
  revision_drift_back : Error
  invalid_rev_format : Error
  stale_revision : Error
  other : ℕ → Error

-- errors.Is(err, ErrCASFailed)
unfoldable pub is_cas_failed : Error → Bool
is_cas_failed cas_failed = true
is_cas_failed (conflict idx key val) = true
is_cas_failed (uncertain origin) = is_cas_failed origin
is_cas_failed _ = false

-- errors.Is(err, ErrUncertainResult)
unfoldable pub is_uncertain : Error → Bool
is_uncertain uncertain_result = true
is_uncertain (uncertain origin) = true
is_uncertain _ = false

-- errors.Is(err, ErrKeyNotFound)
unfoldable pub is_key_not_found : Error → Bool
is_key_not_found key_not_found = true
is_key_not_found (uncertain origin) = is_key_not_found origin
is_key_not_found _ = false

-- What bytes.Compare takes nil for: it is as empty as [].
abbrev pub or_nil : Option Bytes → Bytes
or_nil none = []
or_nil (some v) = v

-- The operations of a batch, in the order in which they were added. A delete of the entry of an
-- iterator carries that entry.
pub data BatchOp : Type 0 where
  put_if_not_exist : (key val : Bytes) (ttl : ℕ) → BatchOp
  cas : (key new_val old_val : Bytes) (ttl : ℕ) → BatchOp
  put : (key val : Bytes) (ttl : ℕ) → BatchOp
  del : (key : Bytes) → BatchOp
  del_current : (key val : Bytes) → BatchOp

pub data Fetch : Type 0 where
  found : (val : Bytes) → Fetch
  fetch_failed : Error → Fetch

abbrev pub Entry : Type 0
Entry = Bytes × Bytes

-- What an iterator yields, call by call: its entries, and then io.EOF (`none`) or an error.
pub record Listing : Type 0 where
  pub entries : List Entry
  pub ends : Option Error

pub data Iterated : Type 0 where
  listed : Listing → Iterated
  iter_failed : Error → Iterated

pub record Partition : Type 0 where
  pub start : Bytes
  pub end : Bytes

-- A storage engine. Its state holds all that decides its answers, the network included, so every
-- call may change it.
pub record KvStorage : Type 1 where
  pub State : Type 0
  pub get : Bytes → State → Fetch × State
  pub iter : (start end : Bytes) (timestamp limit : ℕ) → State → Iterated × State
  pub commit : List BatchOp → State → Option Error × State
  pub support_ttl : Bool
  pub get_timestamp_oracle : State → (ℕ × Option Error) × State
  pub get_partitions : (start end : Bytes) → State → (List Partition × Option Error) × State
  pub del : (key : Bytes) → State → Option Error × State
  -- with the entry that the iterator stands at
  pub del_current : Entry → State → Option Error × State
