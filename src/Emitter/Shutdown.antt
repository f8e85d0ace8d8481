-- ===== src/Emitter/Shutdown.antt =====
-- emitter.py: `close` with the other threads running on.
use tokenweir.Prelude.{ℕ, zero, suc, ◌-◌, ◌≤◌, ◌≡◌, inl, inr, refl, ◌∙◌, true, length, arith}
use tokenweir.Contract.Record.{other_object, usage}
use tokenweir.Emitter.Producer.{offer, begin_close, abandon, begin_flush, end_flush}
use tokenweir.Emitter.Worker.{Sink, Phase, waiting, lingering, delivering, closing, finished, work}
use tokenweir.Emitter.System.{
  World, running, work_step, offer_step, abandon_step, Step, offers, closes, gives_up, flushes,
  flushed, works, Reach, start,
}
use tokenweir.Emitter.Invariant.{Reach-IsSound}
use tokenweir.Emitter.Totals.{Reach-Settings, work-closed}
use tokenweir.Emitter.Progress.{steps_left, measure, Conforms, IsStopping, work_at-Nearer}
use tokenweir.Emitter.Drain.{finished-cases, finished-measure, work_at-finished}

-- A run of all threads in which the worker has had at least `n` turns.
pub data Turns {S : Type 0} (sink : Sink S) (first : World S) : ℕ → World S → Type 0 where
  begun : Turns sink first 0 first
  worker :
      {n : ℕ} {v : World S} (now : ℕ)
      → Turns sink first n v
      → Turns sink first (suc n) (work_step sink now v)
  other : {n : ℕ} {v w : World S} → Turns sink first n v → Step sink v w → Turns sink first n w

-- closed and stopping, with at most so many turns of the worker left
record Ends {S : Type 0} (left_over : ℕ) (w : World S) : Type 0 where
  closed : w.config.emitter.closed ≡ true
  stopping : IsStopping w.config
  bounded : measure w.config ≤ left_over

steps_left-empty : (p : Phase) (n : ℕ) → steps_left p 0 ≤ steps_left p n
steps_left-empty waiting n = omega arith
steps_left-empty (lingering d) zero = omega arith
steps_left-empty (lingering d) (suc n) = omega arith
steps_left-empty (delivering rs) n = omega arith
steps_left-empty closing n = omega arith
steps_left-empty finished n = omega arith

work_step-Ends :
    {S : Type 0} (sink : Sink S) (now n : ℕ) (w : World S)
    → Conforms sink
    → Ends n w
    → Ends (n - 1) (work_step sink now w)
unfolding work_step work
work_step-Ends sink now n w k h =
    elim (finished-cases w.config.phase (length w.config.emitter.buffer)) [
      | inl e ↦
          let b = finished-measure w.config.phase (length w.config.emitter.buffer) (n - 1) e in
          rw (work_at-finished sink now w.config.phase w.config e)
            (record { closed = h.closed; stopping = h.stopping; bounded = b })
      | inr (ne, p) ↦
          let (v', lt) = work_at-Nearer sink now w.config.phase k ne refl h.stopping in
          let b = h.bounded in
          record {
            closed = work-closed sink now w ∙ h.closed;
            stopping = v';
            bounded = omega arith;
          }
    ]

Step-Ends :
    {S : Type 0} {sink : Sink S} {v w : World S} (n : ℕ)
    → Conforms sink
    → Step sink v w
    → Ends n v
    → Ends n w
unfolding offer_step offer begin_close abandon_step abandon begin_flush end_flush
Step-Ends n k (offers now other_object w) h = record {
  closed = h.closed;
  stopping = record {
    stopping = h.stopping.stopping;
    batch_size = h.stopping.batch_size;
    left = h.stopping.left;
  };
  bounded = h.bounded;
}
Step-Ends n k (offers now (usage r) w) h = rw h.closed (record {
  closed = refl;
  stopping = record {
    stopping = h.stopping.stopping;
    batch_size = h.stopping.batch_size;
    left = h.stopping.left;
  };
  bounded = h.bounded;
})
Step-Ends n k (closes w) h = rw h.closed (record {
  closed = refl;
  stopping = record {
    stopping = h.stopping.stopping;
    batch_size = h.stopping.batch_size;
    left = h.stopping.left;
  };
  bounded = h.bounded;
})
Step-Ends n k (gives_up now w c t) h =
    let b = steps_left-empty w.config.phase (length w.config.emitter.buffer) in
    let m = h.bounded in
    record {
      closed = h.closed;
      stopping = record {
        stopping = h.stopping.stopping;
        batch_size = h.stopping.batch_size;
        left = λ e. refl;
      };
      bounded = omega arith;
    }
Step-Ends n k (flushes w) h = record {
  closed = h.closed;
  stopping = record {
    stopping = h.stopping.stopping;
    batch_size = h.stopping.batch_size;
    left = h.stopping.left;
  };
  bounded = h.bounded;
}
Step-Ends n k (flushed w p) h = record {
  closed = h.closed;
  stopping = record {
    stopping = h.stopping.stopping;
    batch_size = h.stopping.batch_size;
    left = h.stopping.left;
  };
  bounded = h.bounded;
}
Step-Ends {sink = sink} n k (works now w) h =
    let e = work_step-Ends sink now n w k h in
    let b = e.bounded in record { closed = e.closed; stopping = e.stopping; bounded = omega arith }

Turns-Ends :
    {S : Type 0} {sink : Sink S} {first w : World S} {n : ℕ}
    → Conforms sink
    → Ends (measure first.config) first
    → Turns sink first n w
    → Ends (measure first.config - n) w
Turns-Ends k h begun =
    let b = h.bounded in record { closed = h.closed; stopping = h.stopping; bounded = omega arith }
Turns-Ends {sink = sink} {first = first} k h (worker {n} {v} now t) =
    let e = work_step-Ends sink now (measure first.config - n) v k (Turns-Ends k h t) in
    let b = e.bounded in record { closed = e.closed; stopping = e.stopping; bounded = omega arith }
Turns-Ends {first = first} {n = n} k h (other t s) =
    Step-Ends (measure first.config - n) k s (Turns-Ends k h t)

-- Once `close` has been called, the worker ends: take any state that the emitter can reach in which it
-- is closed and the worker has not left its loop, and any run of all threads from there, in whatever
-- order, in which the worker has at least `measure` turns. The worker is at its end then. The batch
-- size is at least 1, and the sink raises nothing but `Exception`.
pub Turns-finished :
    {S : Type 0} (sink : Sink S) (m b l i n : ℕ) (s : S) (v w : World S)
    → Conforms sink
    → 1 ≤ b
    → Reach sink (start m b l i s) v
    → v.config.emitter.closed ≡ true
    → running v.config.phase ≡ true
    → Turns sink v n w
    → measure v.config ≤ n
    → w.config.phase ≡ finished
Turns-finished sink m b l i n s v w k hb reach c r t enough =
    let a = Reach-IsSound m b l i s v reach in
    let e =
      Turns-Ends k
        (record {
          closed = c;
          stopping = record {
            stopping = a.stopping ∙ c;
            batch_size = omega (arith, (Reach-Settings m b l i s v reach).1);
            left = λ h. cc;
          };
          bounded = omega arith;
        })
        t in
    let bounded = e.bounded in
    elim (finished-cases w.config.phase (length w.config.emitter.buffer)) [
      | inl done ↦ done
      | inr (ne, p) ↦ absurd (omega arith)
    ]
