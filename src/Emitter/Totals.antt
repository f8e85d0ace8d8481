-- ===== src/Emitter/Totals.antt =====
-- What the counters of the emitter say, in every state that its threads can reach.
use tokenweir.Prelude.{ℕ, ◌+◌, ◌≤◌, ◌≡◌, refl, ◌∙◌, ap, true, length, arith, length-append}
use tokenweir.Contract.Record.{usage, other_object}
use tokenweir.Emitter.State.{stats, dropped}
use tokenweir.Emitter.Producer.{offer, begin_close, abandon, begin_flush, end_flush}
use tokenweir.Emitter.Worker.{Sink, work, look, keep_lingering, take_batch, leave}
use tokenweir.Emitter.System.{
  World, pending, offer_step, abandon_step, work_step, Step, offers, closes, gives_up, flushes,
  flushed, works, Reach, here, next, start,
}
use tokenweir.Emitter.Invariant.{Reach-IsSound}

module _ {S : Type 0} {sink : Sink S} (m b l i : ℕ) (s : S) (w : World S)
    (reached : Reach sink (start m b l i s) w) where
  -- In every reachable state each object that was offered is exactly one of: delivered, in a counter
  -- of `dropped`, in the buffer, in the batch that is being delivered, or in the batch on which the
  -- worker died.
  pub Reach-offers :
      let st = stats w.config.emitter in
      w.history.offers
      ≡ st.delivered
        + dropped st
        + st.buffered
        + length (pending w.config.phase)
        + length w.history.lost
  unfolding stats
  Reach-offers =
      let v = Reach-IsSound m b l i s w reached in
      let h = w.history in
      omega (
        arith,
        v.accepted,
        v.settled,
        v.given_up,
        v.offers,
        ap length v.order,
        length-append {0} h.settled,
        length-append {0} h.lost,
        length-append {0} (pending w.config.phase),
        length-append {0} h.abandoned,
      )

  -- A `flush` that returns `True` has left nothing buffered or in delivery: all that was offered is
  -- delivered, or in a counter of `dropped`, or was lost with the worker.
  pub flush-drained :
      (end_flush w.config.emitter).1 ≡ true
      → let st = stats w.config.emitter in
        w.history.offers ≡ st.delivered + dropped st + length w.history.lost
  unfolding end_flush stats
  flush-drained h =
      let v = Reach-IsSound m b l i s w reached in
      let eq = Reach-offers in ground (arith, eq, v.in_flight)

-- What construction has fixed.
abbrev pub Settings : {S : Type 0} → ℕ → ℕ → World S → Type 0
Settings m b w = (w.config.emitter.max_buffer ≡ m) × (w.config.emitter.batch_size ≡ b)

work-Settings :
    {S : Type 0} (sink : Sink S) (now m b : ℕ) (w : World S)
    → Settings m b w
    → Settings m b (work_step sink now w)
unfolding work_step work look keep_lingering take_batch leave
work-Settings sink now m b w h = ground arith

Step-Settings :
    {S : Type 0} {sink : Sink S} {v w : World S} (m b : ℕ)
    → Step sink v w
    → Settings m b v
    → Settings m b w
unfolding offer_step offer begin_close abandon_step abandon begin_flush end_flush
Step-Settings m b (offers now (usage r) w) h = ground arith
Step-Settings m b (offers now other_object w) h = ground arith
Step-Settings {sink = sink} m b (works now w) h = work-Settings sink now m b w h
Step-Settings m b (closes w) h = ground arith
Step-Settings m b (gives_up now w c t) h = ground arith
Step-Settings m b (flushes w) h = ground arith
Step-Settings m b (flushed w p) h = ground arith

pub Reach-Settings :
    {S : Type 0} {sink : Sink S} (m b l i : ℕ) (s : S) (w : World S)
    → Reach sink (start m b l i s) w
    → Settings m b w
Reach-Settings m b l i s w here = (refl, refl)
Reach-Settings m b l i s w (next r st) = Step-Settings m b st (Reach-Settings m b l i s _ r)

-- The buffer never holds more records than `max_buffer`, and a batch never more than `batch_size`.
pub Reach-bounds :
    {S : Type 0} {sink : Sink S} (m b l i : ℕ) (s : S) (w : World S)
    → Reach sink (start m b l i s) w
    → (length w.config.emitter.buffer ≤ m) × (length (pending w.config.phase) ≤ b)
Reach-bounds m b l i s w r =
    let v = Reach-IsSound m b l i s w r in
    let h = Reach-Settings m b l i s w r in omega (arith, v.bounded, v.batch, h.0, h.1)

abbrev pub IsClosed : {S : Type 0} → World S → Type 0
IsClosed w = w.config.emitter.closed ≡ true

pub work-closed :
    {S : Type 0} (sink : Sink S) (now : ℕ) (w : World S)
    → (work_step sink now w).config.emitter.closed ≡ w.config.emitter.closed
unfolding work_step work look keep_lingering take_batch leave
work-closed sink now w = ground arith

work-accepted :
    {S : Type 0} (sink : Sink S) (now : ℕ) (w : World S)
    → (work_step sink now w).history.accepted ≡ w.history.accepted
unfolding work_step work look keep_lingering take_batch leave
work-accepted sink now w = ground arith

Step-IsClosed :
    {S : Type 0} {sink : Sink S} {v w : World S}
    → Step sink v w
    → IsClosed v
    → IsClosed w × (w.history.accepted ≡ v.history.accepted)
unfolding offer_step offer begin_close abandon_step abandon begin_flush end_flush
Step-IsClosed (offers now (usage r) w) h = ground arith
Step-IsClosed (offers now other_object w) h = ground arith
Step-IsClosed {sink = sink} (works now w) h =
    ground (arith, work-closed sink now w, work-accepted sink now w)
Step-IsClosed (closes w) h = ground arith
Step-IsClosed (gives_up now w c t) h = ground arith
Step-IsClosed (flushes w) h = ground arith
Step-IsClosed (flushed w p) h = ground arith

-- Once `close` has been called, nothing is accepted any more, and the emitter stays closed.
pub Reach-IsClosed :
    {S : Type 0} {sink : Sink S} (v w : World S)
    → IsClosed v
    → Reach sink v w
    → IsClosed w × (w.history.accepted ≡ v.history.accepted)
Reach-IsClosed v w h here = (h, refl)
Reach-IsClosed v w h (next {v = u} r st) =
    let (hu, eu) = Reach-IsClosed v u h r in let (hw, ew) = Step-IsClosed st hu in (hw, ew ∙ eu)
