-- ===== src/Emitter/Progress.antt =====
-- A step of a worker that is stopping: it comes nearer to the worker's end, and loses no record.
use tokenweir.Prelude.{
  ℕ, zero, suc, ◌+◌, ◌*◌, ◌≤◌, ◌<◌, ◌≡◌, ◌≢◌, refl, true, false, Option, none, some, List, [], ◌∷◌,
  length, take, drop, is_empty, min, arith, length-take, length-drop,
}
use tokenweir.Python.{Outcome, returned, raised, exception, base_exception}
use tokenweir.Contract.Record.{UsageRecord}
use tokenweir.Emitter.Worker.{
  Sink, Phase, waiting, lingering, delivering, closing, finished, Config, work, work_at, look,
  keep_lingering, take_batch, leave, account, deliver, close_sink,
}
use tokenweir.Emitter.System.{History, World, running, note, work_step}

-- A bound on the steps that are left to a worker that is stopping.
abbrev pub steps_left : Phase → ℕ → ℕ
steps_left waiting buffered = 6 * buffered + 7
steps_left (lingering d) zero = 9
steps_left (lingering d) (suc buffered) = 6 * suc buffered + 6
steps_left (delivering rs) buffered = length rs + 6 * buffered + 8
steps_left closing buffered = 1
steps_left finished buffered = 0

abbrev pub measure : {S : Type 0} → Config S → ℕ
measure c = steps_left c.phase (length c.emitter.buffer)

-- The sink raises nothing that `except Exception` lets pass.
pub record Conforms {S : Type 0} (sink : Sink S) : Type 0 where
  pub emit : (r : UsageRecord) (s : S) → (sink.emit r s).0 ≢ raised base_exception
  pub emit_batch :
      (send : List UsageRecord → S → Outcome (Unit {0}) × S)
      → sink.emit_batch ≡ some send
      → (rs : List UsageRecord) (s : S) → (send rs s).0 ≢ raised base_exception

-- The worker is stopping, and can take a record at a time at least; once it has left its loop, the
-- buffer is empty.
pub record IsStopping {S : Type 0} (c : Config S) : Type 0 where
  pub stopping : c.emitter.stopping ≡ true
  pub batch_size : 1 ≤ c.emitter.batch_size
  pub left : running c.phase ≡ false → c.emitter.buffer ≡ []

-- what is left once a batch of at most `n` records is taken
abbrev after_take : ℕ → List UsageRecord → ℕ
after_take n b = let k = min (length b) n in length (take k b) + 6 * length (drop k b) + 8

after_take-lingering :
    (d n : ℕ) (b : List UsageRecord) → 1 ≤ n → after_take n b < steps_left (lingering d) (length b)
after_take-lingering d n [] h =
    let none_left : List UsageRecord = [] in
    omega (arith, length-take (min 0 n) none_left, length-drop (min 0 n) none_left)
after_take-lingering d n (x ∷ b) h =
    let k = min (suc (length b)) n in omega (arith, length-take k (x ∷ b), length-drop k (x ∷ b))

after_take-waiting :
    (n : ℕ) (b : List UsageRecord) → 1 ≤ n → is_empty b ≡ false → after_take n b < 6 * length b + 7
after_take-waiting n [] h e = cc
after_take-waiting n (x ∷ b) h e =
    let k = min (suc (length b)) n in omega (arith, length-take k (x ∷ b), length-drop k (x ∷ b))

lingering-waiting :
    (d : ℕ) (b : List UsageRecord)
    → is_empty b ≡ false
    → steps_left (lingering d) (length b) < 6 * length b + 7
lingering-waiting d [] e = cc
lingering-waiting d (x ∷ b) e = omega arith

empty_of_nil : (b : List UsageRecord) → is_empty b ≡ true → b ≡ []
empty_of_nil [] h = refl
empty_of_nil (x ∷ b) h = cc

-- one step of the worker, from a phase: it stays stopping, and comes nearer to its end
abbrev Nearer : {S : Type 0} → Config S → Config S → Type 0
Nearer c c' = IsStopping c' × (measure c' < measure c)

module _ {S : Type 0} {c : Config S} where
  look-Nearer : (now : ℕ) → c.phase ≡ waiting → IsStopping c → Nearer c (look now c)
  unfolding look leave take_batch
  look-Nearer now e v =
      let b = c.emitter.buffer in
      ground (
        arith,
        v.stopping,
        after_take-waiting c.emitter.batch_size b v.batch_size,
        lingering-waiting (now + c.emitter.linger) b,
        empty_of_nil b,
      )

  keep_lingering-Nearer :
      (now d : ℕ) → c.phase ≡ lingering d → IsStopping c → Nearer c (keep_lingering now d c)
  unfolding keep_lingering take_batch
  keep_lingering-Nearer now d e v =
      ground (arith, after_take-lingering d c.emitter.batch_size c.emitter.buffer v.batch_size)

  settle_batch-Nearer :
      c.phase ≡ delivering []
      → IsStopping c
      → Nearer c (record c { emitter = record c.emitter { in_flight = 0 }; phase = waiting })
  settle_batch-Nearer e v = ground arith

  account-Nearer :
      (now n : ℕ) (rest : List UsageRecord) (o : Outcome (Unit {0}) × S) (rs : List UsageRecord)
      → o.0 ≢ raised base_exception
      → c.phase ≡ delivering rs
      → length rest < length rs
      → IsStopping c
      → Nearer c (account now n rest c o)
  unfolding account
  account-Nearer now n rest (returned u, s) rs ne e lt v = ground arith
  account-Nearer now n rest (raised exception, s) rs ne e lt v = ground arith
  account-Nearer now n rest (raised base_exception, s) rs ne e lt v = absurd (ne refl)

  deliver-Nearer :
      (sink : Sink S) (mode : Option (List UsageRecord → S → Outcome (Unit {0}) × S)) (now : ℕ)
      (r : UsageRecord) (rest : List UsageRecord)
      → Conforms (record sink { emit_batch = mode })
      → c.phase ≡ delivering (r ∷ rest)
      → IsStopping c
      → Nearer c (deliver (record sink { emit_batch = mode }) now r rest c)
  unfolding deliver
  deliver-Nearer sink none now r rest k e v =
      account-Nearer now 1 rest (sink.emit r c.sink) (r ∷ rest) (k.emit r c.sink) e (omega arith) v
  deliver-Nearer sink (some send) now r rest k e v =
      account-Nearer now (suc (length rest)) [] (send (r ∷ rest) c.sink) (r ∷ rest)
        (k.emit_batch send refl (r ∷ rest) c.sink) e (omega arith) v

  close_sink-Nearer :
      (sink : Sink S) (now : ℕ)
      → c.phase ≡ closing
      → IsStopping c
      → Nearer c (close_sink sink now c)
  unfolding close_sink
  close_sink-Nearer sink now e v = ground (arith, v.left)

  pub work_at-Nearer :
      (sink : Sink S) (now : ℕ) (p : Phase)
      → Conforms sink
      → p ≢ finished
      → c.phase ≡ p
      → IsStopping c
      → Nearer c (work_at sink now p c)
  unfolding work_at
  work_at-Nearer sink now waiting k ne e v = look-Nearer now e v
  work_at-Nearer sink now (lingering d) k ne e v = keep_lingering-Nearer now d e v
  work_at-Nearer sink now (delivering []) k ne e v = settle_batch-Nearer e v
  work_at-Nearer sink now (delivering (r ∷ rest)) k ne e v =
      deliver-Nearer sink sink.emit_batch now r rest k e v
  work_at-Nearer sink now closing k ne e v = close_sink-Nearer sink now e v
  work_at-Nearer sink now finished k ne e v = absurd (ne refl)

module _ {S : Type 0} (c : Config S) where
  account-lost :
      (sink : Sink S) (now n : ℕ) (r : UsageRecord) (rest left : List UsageRecord)
      (o : Outcome (Unit {0}) × S) (h : History)
      → o.0 ≢ raised base_exception
      → (note sink (delivering (r ∷ rest)) (account now n left c o).phase h).lost ≡ h.lost
  unfolding account note
  account-lost sink now n r rest left (returned u, s) h ne = refl
  account-lost sink now n r rest left (raised exception, s) h ne = refl
  account-lost sink now n r rest left (raised base_exception, s) h ne = absurd (ne refl)

  deliver-lost :
      (sink : Sink S) (mode : Option (List UsageRecord → S → Outcome (Unit {0}) × S)) (now : ℕ)
      (r : UsageRecord) (rest : List UsageRecord) (h : History)
      → Conforms (record sink { emit_batch = mode })
      → let sink' = record sink { emit_batch = mode } in
        (note sink' (delivering (r ∷ rest)) (deliver sink' now r rest c).phase h).lost ≡ h.lost
  unfolding deliver
  deliver-lost sink none now r rest h k =
      account-lost (record sink { emit_batch = none }) now 1 r rest rest (sink.emit r c.sink) h
        (k.emit r c.sink)
  deliver-lost sink (some send) now r rest h k =
      account-lost (record sink { emit_batch = some send }) now (suc (length rest)) r rest []
        (send (r ∷ rest) c.sink) h (k.emit_batch send refl (r ∷ rest) c.sink)

  work_at-lost :
      (sink : Sink S) (now : ℕ) (p : Phase) (h : History)
      → Conforms sink
      → (note sink p (work_at sink now p c).phase h).lost ≡ h.lost
  unfolding work_at note
  work_at-lost sink now (delivering (r ∷ rest)) h k =
      deliver-lost sink sink.emit_batch now r rest h k
  work_at-lost sink now (delivering []) h k = refl
  work_at-lost sink now _ h k = refl

-- what a step of the worker leaves in the history
pub record Kept {S : Type 0} (v w : World S) : Type 0 where
  pub accepted : w.history.accepted ≡ v.history.accepted
  pub abandoned : w.history.abandoned ≡ v.history.abandoned
  pub lost : w.history.lost ≡ v.history.lost

note-kept :
    {S : Type 0} (sink : Sink S) (p q : Phase) (h : History)
    → ((note sink p q h).accepted ≡ h.accepted) × ((note sink p q h).abandoned ≡ h.abandoned)
unfolding note
note-kept sink p q h = ground arith

pub work_step-Kept :
    {S : Type 0} (sink : Sink S) (now : ℕ) (w : World S)
    → Conforms sink
    → Kept w (work_step sink now w)
unfolding work_step work
work_step-Kept sink now w k =
    let (a, b) =
      note-kept sink w.config.phase (work_at sink now w.config.phase w.config).phase w.history in
    record {
      accepted = a;
      abandoned = b;
      lost = work_at-lost w.config sink now w.config.phase w.history k;
    }
