-- ===== src/Emitter/Tests.antt =====
-- A sink that keeps what it is given, runs of an emitter over it, and the theorems at them.
use tokenweir.Prelude.{
  ℕ, zero, suc, ◌+◌, ◌≡◌, refl, none, List, [], ◌∷◌, ◌++◌, length, arith, false, ◌&&◌, not,
  is_empty,
}
use tokenweir.Python.{returned, raised, base_exception}
use tokenweir.Samples.{record_a}
use tokenweir.Contract.Record.{UsageRecord, usage, other_object}
use tokenweir.Emitter.State.{stats, dropped}
use tokenweir.Emitter.Producer.{begin_close, end_flush, offer}
use tokenweir.Emitter.Worker.{Sink, finished, work, take_batch}
use tokenweir.Emitter.System.{
  World, pending, running, with_emitter, offer_step, work_step, offers, closes, works, Reach, here,
  next, start,
}
use tokenweir.Emitter.Totals.{Reach-offers, flush-drained}
use tokenweir.Emitter.Progress.{measure, Conforms}
use tokenweir.Emitter.Drain.{run_worker}
use tokenweir.Emitter.Handed.{recording, handed_over, Reach-handed, close-handed}
use tokenweir.Emitter.Shutdown.{Turns, begun, worker, other, Turns-finished}

abbrev Kept : Type 0
Kept = World (List UsageRecord)

-- one record at a time, no batches, nothing to close
abbrev keeping : Sink (List UsageRecord)
keeping = record { emit = λ r s. (returned tt, s ++ r ∷ []); emit_batch = none; close = none }

keeping-Conforms : Conforms keeping
keeping-Conforms = record { emit = λ r s e. cc; emit_batch = λ send e. cc }

-- a sink on which the worker dies
abbrev dying : Sink (List UsageRecord)
dying = record { emit = λ r s. (raised base_exception, s); emit_batch = none; close = none }

abbrev new_world : Kept
new_world = start 2 1 0 60 []

abbrev offered : Kept
offered = offer_step 0 (usage record_a) (offer_step 0 other_object new_world)

offered-Reach : (sink : Sink (List UsageRecord)) → Reach sink new_world offered
offered-Reach sink =
    next (next here (offers 0 other_object new_world))
      (offers 0 (usage record_a) (offer_step 0 other_object new_world))

abbrev dead : Kept
dead = work_step dying 1 (work_step dying 1 offered)

dead-Reach : Reach dying new_world dead
dead-Reach =
    next (next (offered-Reach dying) (works 1 offered)) (works 1 (work_step dying 1 offered))

-- The record on which the worker died is in no counter.
dead_counts :
    let st = stats dead.config.emitter in
    (dead.history.lost ≡ record_a ∷ [])
    × (dead.history.offers ≡ 2)
    × (st.delivered + dropped st + st.buffered ≡ 1)
unfolding work_step work take_batch offer_step offer stats
dead_counts = (refl, refl, refl)

Reach-offers_example :
    let st = stats dead.config.emitter in
    dead.history.offers
    ≡ st.delivered
      + dropped st
      + st.buffered
      + length (pending dead.config.phase)
      + length dead.history.lost
Reach-offers_example = Reach-offers 2 1 0 60 [] dead dead-Reach

abbrev delivered : Kept
delivered = run_worker keeping (λ n. n) 3 offered

delivered-Reach : Reach keeping new_world delivered
unfolding run_worker
delivered-Reach =
    next
      (next (next (offered-Reach keeping) (works 2 offered))
        (works 1 (work_step keeping 2 offered)))
      (works 0 (work_step keeping 1 (work_step keeping 2 offered)))

flush-drained_example :
    let st = stats delivered.config.emitter in
    delivered.history.offers ≡ st.delivered + dropped st + length delivered.history.lost
unfolding run_worker work_step work take_batch offer_step offer end_flush
flush-drained_example = flush-drained 2 1 0 60 [] delivered delivered-Reach refl

abbrev closed : Kept
closed = with_emitter (begin_close offered.config.emitter) offered

-- the same runs over a sink that writes down what it is handed
abbrev Handed : Type 0
Handed = World (List UsageRecord × List UsageRecord)

abbrev offered_to : Handed
offered_to = offer_step 0 (usage record_a) (offer_step 0 other_object (start 2 1 0 60 ([], [])))

offered_to-Reach :
    (sink : Sink (List UsageRecord)) → Reach (recording sink) (start 2 1 0 60 ([], [])) offered_to
offered_to-Reach sink =
    next (next here (offers 0 other_object (start 2 1 0 60 ([], []))))
      (offers 0 (usage record_a) (offer_step 0 other_object (start 2 1 0 60 ([], []))))

abbrev died : Handed
died = work_step (recording dying) 1 (work_step (recording dying) 1 offered_to)

died-Reach : Reach (recording dying) (start 2 1 0 60 ([], [])) died
died-Reach =
    next (next (offered_to-Reach dying) (works 1 offered_to))
      (works 1 (work_step (recording dying) 1 offered_to))

Reach-handed_example :
    (unsent : List UsageRecord) × (died.history.accepted
      ≡ handed_over died
        ++ (unsent
            ++ (pending died.config.phase
                ++ (died.history.abandoned ++ died.config.emitter.buffer))))
    × (running died.config.phase && not (is_empty unsent) ≡ false)
    × (died.config.emitter.delivered + died.config.emitter.failed + length died.history.lost
        ≡ length (handed_over died) + length unsent)
Reach-handed_example = Reach-handed dying 2 1 0 60 [] died died-Reach

abbrev closed_to : Handed
closed_to = with_emitter (begin_close offered_to.config.emitter) offered_to

close-handed_example :
    let w' = run_worker (recording keeping) (λ n. n) (measure closed_to.config) closed_to in
    (w'.config.phase ≡ finished)
    × (w'.config.emitter.buffer ≡ [])
    × (closed_to.history.accepted ≡ handed_over w' ++ closed_to.history.abandoned)
unfolding begin_close offer_step offer
close-handed_example =
    close-handed keeping (λ n. n) 2 1 0 60 [] closed_to keeping-Conforms (omega arith)
      (next (offered_to-Reach keeping) (closes offered_to)) refl refl

-- a record is offered after the close, and the worker takes its turns
abbrev late : World (List UsageRecord)
late = offer_step 3 other_object closed

abbrev turned : ℕ → World (List UsageRecord)
turned zero = late
turned (suc n) = work_step keeping n (turned n)

turned-Turns : (n : ℕ) → Turns keeping closed n (turned n)
turned-Turns zero = other begun (offers 3 other_object closed)
turned-Turns (suc n) = worker n (turned-Turns n)

Turns-finished_example : (turned (measure closed.config)).config.phase ≡ finished
unfolding begin_close offer_step offer
Turns-finished_example =
    Turns-finished keeping 2 1 0 60 (measure closed.config) [] closed
      (turned (measure closed.config)) keeping-Conforms (omega arith)
      (next (offered-Reach keeping) (closes offered)) refl refl
      (turned-Turns (measure closed.config)) (omega arith)
