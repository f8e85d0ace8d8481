-- ===== src/Sink/Direct.antt =====
-- sink.py: `DirectSink`, over a store whose `write` and `close` are parameters.
use tokenweir.Prelude.{
  ℕ, ◌+◌, ◌-◌, String, Bool, true, none, List, [], ◌∷◌, length, is_empty, ◌==◌, if◌then◌else◌,
}
use tokenweir.Python.{exception, base_exception, Outcome, returned, raised}
use tokenweir.RateLimit
use tokenweir.RateLimit.{Warner}
use tokenweir.Contract.Record.{UsageRecord, Object, usage, other_object}

abbrev pub not_a_record : String
not_a_record = "tokenweir: refusing to emit a non-UsageRecord; no metering for this call"

abbrev pub sink_closed : String
sink_closed = "tokenweir: refusing to emit through a closed sink; no metering for these calls"

abbrev pub source_close_failed : String
source_close_failed = "tokenweir: the store raised while closing; releasing it anyway"

abbrev pub direct_write_failed : String
direct_write_failed =
    "tokenweir: usage records not written — the store failed; no metering for these calls"

-- `Source`: what a store does, on a state of its own. `write` returns a count that nobody reads here.
pub record Store (S : Type 0) : Type 0 where
  pub write : List UsageRecord → S → Outcome ℕ × S
  pub close : S → Outcome (Unit {0}) × S

pub record DirectSink (S : Type 0) : Type 0 where
  pub source : S
  pub owns_source : Bool
  pub closed : Bool
  pub written : ℕ
  pub dropped : ℕ
  pub warner : Warner

-- What `emit_batch` is given: objects that can be listed, or an iterable that raises when drained.
pub data Batch : Type 0 where
  drained : List Object → Batch
  broken : Batch

-- `[record for record in offered if isinstance(record, UsageRecord)]`
unfoldable pub usage_records : List Object → List UsageRecord
usage_records [] = []
usage_records (usage r ∷ os) = r ∷ usage_records os
usage_records (other_object ∷ os) = usage_records os

module _ {S : Type 0} (store : Store S) (now : ℕ) where
  abbrev pub warned : String → DirectSink S → DirectSink S
  warned message k = record k { warner = (RateLimit.warn now message none k.warner).0 }

  -- the `try` around `self._source.write(batch)`, and the count after it
  unfoldable pub counted : ℕ → DirectSink S → Outcome ℕ × S → Outcome (Unit {0}) × DirectSink S
  counted n k (returned _, s) = (returned tt, record k { source = s; written = k.written + n })
  counted n k (raised exception, s) =
      (returned tt, warned direct_write_failed (record k { source = s; dropped = k.dropped + n }))
  counted n k (raised base_exception, s) = (raised base_exception, record k { source = s })

  -- the refusal of what is no record
  unfoldable pub refuse : ℕ → DirectSink S → DirectSink S
  refuse refused k =
      if refused == 0 then k else warned not_a_record (record k { dropped = k.dropped + refused })

  -- the rest of `emit_batch`, for the records of the batch
  unfoldable pub write_batch : List UsageRecord → DirectSink S → Outcome (Unit {0}) × DirectSink S
  unfolding counted
  write_batch batch k =
      if is_empty batch
      then (returned tt, k)
      else if k.closed
      then (returned tt, warned sink_closed (record k { dropped = k.dropped + length batch }))
      else counted (length batch) k (store.write batch k.source)

  -- `DirectSink.emit_batch`
  unfoldable pub emit_batch : Batch → DirectSink S → Outcome (Unit {0}) × DirectSink S
  unfolding refuse write_batch usage_records
  emit_batch broken k = (returned tt, warned direct_write_failed k)
  emit_batch (drained offered) k =
      let batch = usage_records offered in
      write_batch batch (refuse (length offered - length batch) k)

  -- `DirectSink.emit`
  unfoldable pub emit : Object → DirectSink S → Outcome (Unit {0}) × DirectSink S
  unfolding emit_batch
  emit r k = emit_batch (drained (r ∷ [])) k

  -- the `try` around `self._source.close()`
  unfoldable pub released :
      DirectSink S → Outcome (Unit {0}) × S → Outcome (Unit {0}) × DirectSink S
  released k (returned _, s) = (returned tt, record k { source = s })
  released k (raised exception, s) =
      (returned tt, warned source_close_failed (record k { source = s }))
  released k (raised base_exception, s) = (raised base_exception, record k { source = s })

  -- `DirectSink.close`
  unfoldable pub close : DirectSink S → Outcome (Unit {0}) × DirectSink S
  unfolding released
  close k =
      if k.closed
      then (returned tt, k)
      else if k.owns_source
      then released (record k { closed = true }) (store.close k.source)
      else (returned tt, record k { closed = true })
