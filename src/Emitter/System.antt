-- ===== src/Emitter/System.antt =====
-- emitter.py: the threads together. A world is the emitter with its worker and its sink, and a record
-- of what has happened to every object that was offered; a step is one critical section of some
-- thread, in any order that the lock allows.
use tokenweir.Prelude.{ℕ, ◌+◌, ◌<◌, ◌≡◌, Bool, true, false, none, some, List, [], ◌∷◌, ◌++◌}
use tokenweir.Contract.Record.{UsageRecord, Object, usage}
use tokenweir.Emitter.State.{Emitter, new}
use tokenweir.Emitter.Producer.{offer, begin_close, abandon, begin_flush, end_flush}
use tokenweir.Emitter.Worker.{Sink, Phase, waiting, delivering, closing, finished, Config, work}

-- How many objects were offered, the records that were accepted, in order; those that the sink has
-- taken or refused by an exception; those that were in the batch on which the worker died; those that
-- `close` gave up.
pub record History : Type 0 where
  pub offers : ℕ
  pub accepted : List UsageRecord
  pub settled : List UsageRecord
  pub lost : List UsageRecord
  pub abandoned : List UsageRecord

pub record World (S : Type 0) : Type 0 where
  pub config : Config S
  pub history : History

-- the records of the batch in delivery that the sink has not yet been given
abbrev pub pending : Phase → List UsageRecord
pending (delivering rs) = rs
pending _ = []

-- the worker has not left its loop
abbrev pub running : Phase → Bool
running closing = false
running finished = false
running _ = true

-- the thread has not ended: `Thread.is_alive`
abbrev pub thread_alive : Phase → Bool
thread_alive finished = false
thread_alive _ = true

abbrev pub entered : Object → Bool → List UsageRecord → List UsageRecord
entered (usage r) true l = l ++ r ∷ []
entered _ _ l = l

abbrev pub with_emitter : {S : Type 0} → Emitter → World S → World S
with_emitter e w = record w { config = record w.config { emitter = e } }

unfoldable pub offer_step : {S : Type 0} → ℕ → Object → World S → World S
offer_step now o w =
    let (e, took) = offer now o w.config.emitter in
    record w {
      config = record w.config { emitter = e };
      history = record w.history {
        offers = w.history.offers + 1;
        accepted = entered o took w.history.accepted;
      };
    }

unfoldable pub abandon_step : {S : Type 0} → ℕ → World S → World S
abandon_step now w = record w {
  config = record w.config { emitter = abandon now w.config.emitter };
  history = record w.history { abandoned = w.history.abandoned ++ w.config.emitter.buffer };
}

-- the part of a batch that one call of the sink is given
abbrev pub handed : {S : Type 0} → Sink S → UsageRecord → List UsageRecord → List UsageRecord
handed sink r rest = elim sink.emit_batch [ none ↦ r ∷ [] | some _ ↦ r ∷ rest ]

-- What a step of the worker, from one phase to another, adds to the history: an account by the phases
-- alone, beside which Handed sets what the sink itself is handed.
unfoldable pub note : {S : Type 0} → Sink S → Phase → Phase → History → History
note sink (delivering (r ∷ rest)) (delivering _) h = record h {
  settled = h.settled ++ handed sink r rest;
}
note sink (delivering (r ∷ rest)) closing h = record h { lost = h.lost ++ r ∷ rest }
note sink _ _ h = h

unfoldable pub work_step : {S : Type 0} → Sink S → ℕ → World S → World S
unfolding note
work_step sink now w =
    let c = work sink now w.config in
    record { config = c; history = note sink w.config.phase c.phase w.history }

pub data Step {S : Type 0} (sink : Sink S) : World S → World S → Type 0 where
  offers : (now : ℕ) (o : Object) (w : World S) → Step sink w (offer_step now o w)
  closes : (w : World S) → Step sink w (with_emitter (begin_close w.config.emitter) w)
  gives_up :
      (now : ℕ) (w : World S)
      → w.config.emitter.closed ≡ true
      → thread_alive w.config.phase ≡ true
      → Step sink w (abandon_step now w)
  flushes : (w : World S) → Step sink w (with_emitter (begin_flush w.config.emitter) w)
  flushed :
      (w : World S)
      → 0 < w.config.emitter.flush_waiters
      → Step sink w (with_emitter (end_flush w.config.emitter).0 w)
  works : (now : ℕ) (w : World S) → Step sink w (work_step sink now w)

pub data Reach {S : Type 0} (sink : Sink S) (start : World S) : World S → Type 0 where
  here : Reach sink start start
  next : {v w : World S} → Reach sink start v → Step sink v w → Reach sink start w

abbrev pub start : {S : Type 0} → ℕ → ℕ → ℕ → ℕ → S → World S
start max_buffer batch_size linger warn_interval s = record {
  config = record {
    emitter = new max_buffer batch_size linger warn_interval;
    phase = waiting;
    sink = s;
  };
  history = record { offers = 0; accepted = []; settled = []; lost = []; abandoned = [] };
}
