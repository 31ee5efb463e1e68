-- ===== src/Scanner/Visible.antt =====
-- What a read of pkg/backend/scanner should see: the versions of the objects as the storage holds
-- them, and the newest of each object up to a revision, unless it is a deletion.
pub mod Order
pub mod Stored
use kubebrain.Base.{
  ℕ, ◌<◌, ◌≡◌, ◌⊎◌, List, [], ◌∷◌, Bool, true, false, not, ◌&&◌, ◌||◌, ltb, leb, if◌then◌else◌,
  Ordering, All,
}
use kubebrain.Base.Bytes.{Bytes, cmp, equal}
use kubebrain.Message.{KeyValue}
use kubebrain.Coder.{uint64_mod, encode_object_key}
use kubebrain.Storage.{Entry}

-- A version of an object, or the object's revision key, whose revision is 0: `kv.key` is the user key.
abbrev pub entry_of : KeyValue → Entry
entry_of v = (encode_object_key v.key v.revision, v.value)

abbrev pub entries_of : List KeyValue → List Entry
entries_of [] = []
entries_of (v ∷ vs) = entry_of v ∷ entries_of vs

-- In the order of the storage: by key, and by revision within a key.
abbrev pub Before : KeyValue → KeyValue → Type 0
Before v w = (cmp v.key w.key ≡ Ordering.lt) ⊎ ((v.key ≡ w.key) × (v.revision < w.revision))

abbrev pub Ordered : List KeyValue → Type 0
Ordered [] = Unit
Ordered (v ∷ vs) = All (Before v) vs × Ordered vs

abbrev pub HasRevision : KeyValue → Type 0
HasRevision v = v.revision < uint64_mod

-- Whether a later version of the key has a revision up to `r`.
unfoldable pub replaced : (r : ℕ) (key : Bytes) → List KeyValue → Bool
replaced r key [] = false
replaced r key (w ∷ ws) = equal w.key key && leb w.revision r || replaced r key ws

-- Whether a version is one that a read at `r` may show.
unfoldable pub shown : (r : ℕ) (tombstone : Bytes) → KeyValue → Bool
shown r tombstone v = ltb 0 v.revision && (leb v.revision r && not (equal v.value tombstone))

-- The versions that a read at `r` sees.
unfoldable pub visible : (r : ℕ) (tombstone : Bytes) → List KeyValue → List KeyValue
unfolding replaced shown
visible r tombstone [] = []
visible r tombstone (v ∷ vs) =
    if shown r tombstone v && not (replaced r v.key vs)
    then v ∷ visible r tombstone vs
    else visible r tombstone vs
