-- ===== src/Sink/Delivery.antt =====
-- What `DirectSink` does with a batch, and how it counts it.
use tokenweir.Prelude.{
  ℕ, ◌+◌, ◌≤◌, true, ◌≡◌, ◌≢◌, List, [], ◌∷◌, ◌||◌, length, is_empty, arith, if◌then◌else◌,
}
use tokenweir.Python.{exception, Outcome, returned, raised}
use tokenweir.Contract.Record.{Object, usage, other_object}
use tokenweir.Sink.Direct.{
  Store, DirectSink, Batch, drained, usage_records, counted, refuse, write_batch, emit_batch,
  released, close,
}

length-usage_records : (os : List Object) → length (usage_records os) ≤ length os
unfolding usage_records
length-usage_records [] = omega arith
length-usage_records (usage r ∷ os) = omega (arith, length-usage_records os)
length-usage_records (other_object ∷ os) = omega (arith, length-usage_records os)

-- 1 where a call of the store's `write` has returned
abbrev pub if_written : Outcome ℕ → ℕ → ℕ
if_written (returned _) n = n
if_written (raised e) n = 0

module _ {S : Type 0} (store : Store S) (now : ℕ) where
  -- Every object that is offered is counted, as written or as dropped, unless the store has raised
  -- what is no `Exception`.
  pub emit_batch-counts :
      (os : List Object) (k k' : DirectSink S)
      → emit_batch store now (drained os) k ≡ (returned tt, k')
      → k'.written + k'.dropped ≡ k.written + k.dropped + length os
  unfolding emit_batch write_batch refuse counted
  emit_batch-counts os k k' h = ground (arith, length-usage_records os)

  -- The store gets the records of the batch in one call of `write`, unless the sink is closed or
  -- there is none, and `written` grows by their number exactly when that call returns.
  pub emit_batch-source :
      (os : List Object) (k : DirectSink S)
      → let rs = usage_records os in
        let k' = (emit_batch store now (drained os) k).1 in
        let done = store.write rs k.source in
        (k'.source ≡ (if k.closed || is_empty rs then k.source else done.1))
        × (k'.written ≡ k.written + (if k.closed then 0 else if_written done.0 (length rs)))
        × (k'.closed ≡ k.closed)
  unfolding emit_batch write_batch refuse counted
  emit_batch-source os k = ground arith

  -- Neither `emit_batch` nor `close` raises what `except Exception` can catch.
  pub emit_batch-raised :
      (b : Batch) (k : DirectSink S)
      → ((emit_batch store now b k).0 ≢ raised exception)
        × ((close store now k).0 ≢ raised exception)
  unfolding emit_batch write_batch refuse counted close released
  emit_batch-raised b k = ground arith

  -- After `close` the sink is closed, the source of a borrowed sink is as it was and an owned source
  -- has had one call of its `close`, unless the sink was closed before; a second `close` does nothing.
  pub close-close :
      (k : DirectSink S)
      → let k' = (close store now k).1 in
        (k'.closed ≡ true)
        × (k'.source ≡ (
            if k.closed
            then k.source
            else if k.owns_source
            then (store.close k.source).1
            else k.source))
        × (close store now k' ≡ (returned tt, k'))
  unfolding close released
  close-close k = ground arith
