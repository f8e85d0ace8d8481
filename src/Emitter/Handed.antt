-- ===== src/Emitter/Handed.antt =====
-- emitter.py: what `_deliver` hands to the sink. The sink is put behind one that writes down each record
-- it is handed, call by call, and passes the call on.
use mathlib.Core.List.{append_assoc, append-nil}
use tokenweir.Prelude.{
  ℕ, zero, suc, ◌+◌, ◌≤◌, ◌≡◌, ◌≢◌, refl, ◌∙◌, sym, subst, ap, Bool, true, false, ◌&&◌, ◌||◌, not,
  Option, none, some, List, [], ◌∷◌, ◌++◌, length, is_empty, arith, length-append,
}
use tokenweir.Python.{Outcome, returned, raised, exception, base_exception}
use tokenweir.Contract.Record.{UsageRecord, usage, other_object}
use tokenweir.Emitter.Producer.{offer, begin_close, abandon, begin_flush, end_flush}
use tokenweir.Emitter.Worker.{
  Sink, Phase, waiting, lingering, delivering, closing, finished, Config, work, work_at, look,
  keep_lingering, take_batch, leave, account, deliver, sink_released, close_sink,
}
use tokenweir.Emitter.System.{
  History, World, pending, running, note, offer_step, abandon_step, work_step, Step, offers, closes,
  gives_up, flushes, flushed, works, Reach, here, next, start,
}
use tokenweir.Emitter.Ledger.{IsSound}
use tokenweir.Emitter.Invariant.{nil_of_is_empty, Reach-IsSound}
use tokenweir.Emitter.Progress.{measure, Conforms}
use tokenweir.Emitter.Drain.{run_worker, close-run_worker}

-- the answer of a sink, with what has been handed to it
abbrev pub beside :
    {S : Type 0}
    → List UsageRecord
    → Outcome (Unit {0}) × S
    → Outcome (Unit {0}) × (S × List UsageRecord)
beside given (o, s) = (o, (s, given))

abbrev recording_batch :
    {S : Type 0}
    → Option (List UsageRecord → S → Outcome (Unit {0}) × S)
    → Option (List UsageRecord → S × List UsageRecord → Outcome (Unit {0}) × (S × List UsageRecord))
recording_batch none = none
recording_batch (some send) = some (λ rs s. beside (s.1 ++ rs) (send rs s.0))

abbrev recording_close :
    {S : Type 0}
    → Option (S → Outcome (Unit {0}) × S)
    → Option (S × List UsageRecord → Outcome (Unit {0}) × (S × List UsageRecord))
recording_close none = none
recording_close (some release) = some (λ s. beside s.1 (release s.0))

-- A sink with the list of the records that it has been handed.
abbrev pub recording : {S : Type 0} → Sink S → Sink (S × List UsageRecord)
recording sink = record {
  emit = λ r s. beside (s.1 ++ r ∷ []) (sink.emit r s.0);
  emit_batch = recording_batch sink.emit_batch;
  close = recording_close sink.close;
}

abbrev pub handed_over : {S : Type 0} → World (S × List UsageRecord) → List UsageRecord
handed_over w = w.config.sink.1

-- What was settled and lost is what was handed over, and then what was not handed over any more,
-- which is nothing unless records were lost.
pub record Tracked {S : Type 0} (c : Config (S × List UsageRecord)) (h : History) : Type 0 where
  pub unsent : List UsageRecord
  pub order : h.settled ++ h.lost ≡ c.sink.1 ++ unsent
  pub none_left : is_empty unsent || not (is_empty h.lost) ≡ true

same_so_far : (a l g u : List UsageRecord) → l ≡ [] → u ≡ [] → a ++ l ≡ g ++ u → a ≡ g
same_so_far a l g u e f h =
    let h' : a ++ [] ≡ g ++ [] = rw (e, f) at h in sym (append-nil a) ∙ h' ∙ append-nil g

answered_order :
    (a l g part : List UsageRecord) → l ≡ [] → a ≡ g → (a ++ part) ++ l ≡ (g ++ part) ++ []
answered_order a l g part e h = rw (e, h)

died_order :
    (a l g part rest : List UsageRecord)
    → l ≡ []
    → a ≡ g
    → a ++ (l ++ (part ++ rest)) ≡ (g ++ part) ++ rest
died_order a l g part rest e h = rw (e, h) (sym (append_assoc g part rest))

lost_with :
    (l part rest : List UsageRecord)
    → l ≡ []
    → is_empty rest || not (is_empty (l ++ (part ++ rest))) ≡ true
lost_with l part [] e = refl
lost_with l [] (x ∷ rest) e = rw e
lost_with l (y ∷ part) (x ∷ rest) e = rw e

nothing_unsent :
    (u l : List UsageRecord) → is_empty l ≡ true → is_empty u || not (is_empty l) ≡ true → u ≡ []
nothing_unsent [] l e h = refl
nothing_unsent (x ∷ u) l e h = ground arith

module _ {S : Type 0} {c : Config (S × List UsageRecord)} {h : History} where
  same : is_empty h.lost ≡ true → Tracked c h → h.settled ≡ c.sink.1
  same n t =
      same_so_far h.settled h.lost c.sink.1 t.unsent (nil_of_is_empty h.lost n)
        (nothing_unsent t.unsent h.lost n t.none_left) t.order

  account-Tracked :
      (now : ℕ) (part rest : List UsageRecord) (o : Outcome (Unit {0}) × S)
      → is_empty h.lost ≡ true
      → Tracked c h
      → Tracked (account now (length part) rest c (beside (c.sink.1 ++ part) o)) (elim o.0 [
        | returned _ ↦ record h { settled = h.settled ++ part }
        | raised exception ↦ record h { settled = h.settled ++ part }
        | raised base_exception ↦ record h { lost = h.lost ++ (part ++ rest) }
      ])
  unfolding account leave
  account-Tracked now part rest (returned _, s) n t = record {
    unsent = [];
    order = answered_order h.settled h.lost c.sink.1 part (nil_of_is_empty h.lost n) (same n t);
    none_left = refl;
  }
  account-Tracked now part rest (raised exception, s) n t = record {
    unsent = [];
    order = answered_order h.settled h.lost c.sink.1 part (nil_of_is_empty h.lost n) (same n t);
    none_left = refl;
  }
  account-Tracked now part rest (raised base_exception, s) n t = record {
    unsent = rest;
    order = died_order h.settled h.lost c.sink.1 part rest (nil_of_is_empty h.lost n) (same n t);
    none_left = lost_with h.lost part rest (nil_of_is_empty h.lost n);
  }

  one-Tracked :
      (sink : Sink S) (now : ℕ) (r : UsageRecord) (rest : List UsageRecord)
      (o : Outcome (Unit {0}) × S)
      → is_empty h.lost ≡ true
      → Tracked c h
      → let c' = account now 1 rest c (beside (c.sink.1 ++ r ∷ []) o) in
        Tracked c'
          (note (recording (record sink { emit_batch = none })) (delivering (r ∷ rest)) c'.phase h)
  unfolding note account leave
  one-Tracked sink now r rest (returned u, s) n t =
      account-Tracked now (r ∷ []) rest (returned u, s) n t
  one-Tracked sink now r rest (raised exception, s) n t =
      account-Tracked now (r ∷ []) rest (raised exception, s) n t
  one-Tracked sink now r rest (raised base_exception, s) n t =
      account-Tracked now (r ∷ []) rest (raised base_exception, s) n t

  all-Tracked :
      (sink : Sink S) (send : List UsageRecord → S → Outcome (Unit {0}) × S) (now : ℕ)
      (r : UsageRecord) (rest : List UsageRecord) (o : Outcome (Unit {0}) × S)
      → is_empty h.lost ≡ true
      → Tracked c h
      → let c' = account now (suc (length rest)) [] c (beside (c.sink.1 ++ r ∷ rest) o) in
        Tracked c' (
          note
            (recording (record sink { emit_batch = some send }))
            (delivering (r ∷ rest))
            c'.phase
            h)
  unfolding note account leave
  all-Tracked sink send now r rest (returned u, s) n t =
      account-Tracked now (r ∷ rest) [] (returned u, s) n t
  all-Tracked sink send now r rest (raised exception, s) n t =
      account-Tracked now (r ∷ rest) [] (raised exception, s) n t
  all-Tracked sink send now r rest (raised base_exception, s) n t =
      let c' =
        account now (suc (length rest)) [] c
          (beside (c.sink.1 ++ r ∷ rest) (raised base_exception, s)) in
      subst (λ rs. Tracked c' (record h { lost = h.lost ++ rs })) (append-nil (r ∷ rest))
        (account-Tracked now (r ∷ rest) [] (raised base_exception, s) n t)

  deliver-Tracked :
      (sink : Sink S) (mode : Option (List UsageRecord → S → Outcome (Unit {0}) × S)) (now : ℕ)
      (r : UsageRecord) (rest : List UsageRecord)
      → is_empty h.lost ≡ true
      → Tracked c h
      → let sink' = recording (record sink { emit_batch = mode }) in
        let c' = deliver sink' now r rest c in
        Tracked c' (note sink' (delivering (r ∷ rest)) c'.phase h)
  unfolding deliver
  deliver-Tracked sink none now r rest n t = one-Tracked sink now r rest (sink.emit r c.sink.0) n t
  deliver-Tracked sink (some send) now r rest n t =
      all-Tracked sink send now r rest (send (r ∷ rest) c.sink.0) n t

  close_sink-Tracked :
      (sink : Sink S) (release : Option (S → Outcome (Unit {0}) × S)) (now : ℕ)
      → Tracked c h
      → Tracked (close_sink (recording (record sink { close = release })) now c) h
  unfolding close_sink sink_released
  close_sink-Tracked sink none now t = ground arith
  close_sink-Tracked sink (some release) now t = ground arith

  work_at-Tracked :
      (sink : Sink S) (now : ℕ) (p : Phase)
      → (running p ≡ true → is_empty h.lost ≡ true)
      → Tracked c h
      → let c' = work_at (recording sink) now p c in Tracked c' (note (recording sink) p c'.phase h)
  unfolding note work_at look keep_lingering take_batch leave
  work_at-Tracked sink now waiting n t = ground arith
  work_at-Tracked sink now (lingering d) n t = ground arith
  work_at-Tracked sink now (delivering []) n t = ground arith
  work_at-Tracked sink now (delivering (r ∷ rest)) n t =
      deliver-Tracked sink sink.emit_batch now r rest (n refl) t
  work_at-Tracked sink now closing n t = close_sink-Tracked sink sink.close now t
  work_at-Tracked sink now finished n t = t

none_lost_while : (b l : Bool) → b && not l ≡ false → b ≡ true → l ≡ true
none_lost_while b l h e = ground arith

none_unsent_while : (b l u : Bool) → b && not l ≡ false → u || not l ≡ true → b && not u ≡ false
none_unsent_while b l u h k = ground arith

-- how a call of `emit_batch` ends
abbrev sent_by :
    {T : Type 0}
    → Option (List UsageRecord → T → Outcome (Unit {0}) × T)
    → List UsageRecord
    → T
    → Outcome (Unit {0})
sent_by none rs s = returned tt
sent_by (some send) rs s = (send rs s).0

recording_batch-Conforms :
    {S : Type 0} (mode : Option (List UsageRecord → S → Outcome (Unit {0}) × S))
    → ((send : List UsageRecord → S → Outcome (Unit {0}) × S)
        → mode ≡ some send
        → (rs : List UsageRecord) (s : S) → (send rs s).0 ≢ raised base_exception)
    → (send : List UsageRecord → S × List UsageRecord → Outcome (Unit {0}) × (S × List UsageRecord))
    → recording_batch mode ≡ some send
    → (rs : List UsageRecord) (s : S × List UsageRecord) → (send rs s).0 ≢ raised base_exception
recording_batch-Conforms none k send e rs s h = cc
recording_batch-Conforms (some f) k send e rs s h =
    let raises : (f rs s.0).0 ≡ raised base_exception = ap (λ o. sent_by o rs s) e ∙ h in
    k f refl rs s.0 raises

abbrev pub IsTracked : {S : Type 0} → World (S × List UsageRecord) → Type 0
IsTracked w = Tracked w.config w.history

Step-IsTracked :
    {S : Type 0} (sink : Sink S) {v w : World (S × List UsageRecord)}
    → Step (recording sink) v w
    → IsSound v
    → IsTracked v
    → IsTracked w
unfolding offer_step offer begin_close abandon_step abandon begin_flush end_flush work_step work
Step-IsTracked sink (offers now (usage r) w) a t = ground arith
Step-IsTracked sink (offers now other_object w) a t = ground arith
Step-IsTracked sink (works now w) a t =
    work_at-Tracked sink now w.config.phase
      (none_lost_while (running w.config.phase) (is_empty w.history.lost) a.none_lost) t
Step-IsTracked sink (closes w) a t = ground arith
Step-IsTracked sink (gives_up now w c e) a t = ground arith
Step-IsTracked sink (flushes w) a t = ground arith
Step-IsTracked sink (flushed w p) a t = ground arith

Reach-IsTracked :
    {S : Type 0} (sink : Sink S) (m b l i : ℕ) (s : S) (w : World (S × List UsageRecord))
    → Reach (recording sink) (start m b l i (s, [])) w
    → IsTracked w
Reach-IsTracked sink m b l i s w here = record { unsent = []; order = refl; none_left = refl }
Reach-IsTracked sink m b l i s w (next {v = v} r st) =
    Step-IsTracked sink st (Reach-IsSound m b l i (s, []) v r) (Reach-IsTracked sink m b l i s v r)

five_parts :
    (acc a l g u p x : List UsageRecord)
    → acc ≡ a ++ (l ++ (p ++ x))
    → a ++ l ≡ g ++ u
    → acc ≡ g ++ (u ++ (p ++ x))
five_parts acc a l g u p x e h =
    e ∙ sym (append_assoc a l (p ++ x)) ∙ ap (λ k. k ++ (p ++ x)) h ∙ append_assoc g u (p ++ x)

module _ {S : Type 0} (sink : Sink S) (m b l i : ℕ) (s : S) (w : World (S × List UsageRecord))
    (reached : Reach (recording sink) (start m b l i (s, [])) w) where
  -- The sink is handed the records in the order in which they were accepted, none twice and none left
  -- out, in every state that the threads can reach over any sink, which is put behind one that writes
  -- down what it is handed. What has been written down, what the worker did not hand over any more
  -- when it died, what is left of the batch in delivery, what `close` gave up and what is buffered
  -- make up, in this order, all that was accepted; the second of the five is empty while the worker
  -- is in its loop. The records that are counted as delivered or failed, with those of the batch on
  -- which the worker died, are as many as the first two.
  pub Reach-handed :
      (unsent : List UsageRecord) × (w.history.accepted
        ≡ handed_over w
          ++ (unsent
              ++ (pending w.config.phase ++ (w.history.abandoned ++ w.config.emitter.buffer))))
      × (running w.config.phase && not (is_empty unsent) ≡ false)
      × (w.config.emitter.delivered + w.config.emitter.failed + length w.history.lost
          ≡ length (handed_over w) + length unsent)
  Reach-handed =
      let a = Reach-IsSound m b l i (s, []) w reached in
      let t = Reach-IsTracked sink m b l i s w reached in
      (
        t.unsent,
        five_parts w.history.accepted w.history.settled w.history.lost (handed_over w) t.unsent
            (pending w.config.phase) (w.history.abandoned ++ w.config.emitter.buffer) a.order
            t.order,
        none_unsent_while (running w.config.phase) (is_empty w.history.lost) (is_empty t.unsent)
            a.none_lost t.none_left,
        omega (
          arith,
          a.settled,
          ap length t.order,
          length-append {0} w.history.settled,
          length-append {0} (handed_over w),
        ),
      )

recording-Conforms : {S : Type 0} {sink : Sink S} → Conforms sink → Conforms (recording sink)
recording-Conforms {sink = sink} k = record {
  emit = λ r s. k.emit r s.0;
  emit_batch = recording_batch-Conforms sink.emit_batch k.emit_batch;
}

run_worker-Reach :
    {S : Type 0} (sink : Sink S) (clock : ℕ → ℕ) (n : ℕ) {v w : World S}
    → Reach sink v w
    → Reach sink v (run_worker sink clock n w)
unfolding run_worker
run_worker-Reach sink clock zero r = r
run_worker-Reach sink clock (suc n) {w = w} r =
    run_worker-Reach sink clock n (next r (works (clock n) w))

-- `close` flushes: take any sink that raises nothing but `Exception`, put behind one that writes down
-- what it is handed, and any state that the emitter can reach over it in which `close` has been called
-- and the worker has not left its loop. Then the worker, run alone for at most `measure` steps, ends
-- with an empty buffer, and what has been written down, from the start on, is everything that was
-- accepted, in order and each record once, but for what an earlier `close` had given up at the end.
pub close-handed :
    {S : Type 0} (sink : Sink S) (clock : ℕ → ℕ) (m b l i : ℕ) (s : S)
    (w : World (S × List UsageRecord))
    → Conforms sink
    → 1 ≤ b
    → Reach (recording sink) (start m b l i (s, [])) w
    → w.config.emitter.closed ≡ true
    → running w.config.phase ≡ true
    → let w' = run_worker (recording sink) clock (measure w.config) w in
      (w'.config.phase ≡ finished)
      × (w'.config.emitter.buffer ≡ [])
      × (w.history.accepted ≡ handed_over w' ++ w.history.abandoned)
close-handed sink clock m b l i s w k hb reach c r =
    let w' = run_worker (recording sink) clock (measure w.config) w in
    let (e, empty, kept, order, lost) =
      close-run_worker (recording sink) clock m b l i (s, []) w (recording-Conforms k) hb reach c
        r in
    let t =
      Reach-IsTracked sink m b l i s w'
        (run_worker-Reach (recording sink) clock (measure w.config) reach) in
    (e, empty, sym kept ∙ order ∙ ap (λ g. g ++ w.history.abandoned) (same (rw lost) t))
