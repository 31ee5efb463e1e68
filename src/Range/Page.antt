-- ===== src/Range/Page.antt =====
-- One page of a range in `List` of pkg/backend/range.go.
use kubebrain.Base.{ℕ, ◌+◌, List, Bool, true, false, ◌&&◌, length, take, ltb, ◌==◌, if◌then◌else◌}
use kubebrain.Message.{KeyValue}
use kubebrain.Storage.{Error, other}
use kubebrain.Range.{Result, reply, failed}

pub record RangeResponse : Type 0 where
  pub header_revision : ℕ
  pub more : Bool
  pub kvs : List KeyValue

abbrev pub invalid_nil_end : Error
invalid_nil_end = other 0

abbrev pub invalid_range_end : Error
invalid_range_end = other 1

-- One more than the limit, if there is one, is read to see whether there is more. The limit is an
-- int64 and 0 stands for one that is not positive, which is only compared with 0: the greatest wraps
-- to such a one.
abbrev pub read_limit : ℕ → ℕ
read_limit limit = if ltb 0 limit then if limit == 9223372036854775807 then 0 else limit + 1 else 0

-- The page of what was read.
unfoldable pub page : (cur_revision limit : ℕ) → Result (List KeyValue) → Result RangeResponse
page cur_revision limit (failed e) = failed e
page cur_revision limit (reply kvs) =
    if ltb 0 (read_limit limit) && ltb limit (length kvs)
    then reply (record { header_revision = cur_revision; more = true; kvs = take limit kvs })
    else reply (record { header_revision = cur_revision; more = false; kvs = kvs })
