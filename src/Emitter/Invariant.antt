-- ===== src/Emitter/Invariant.antt =====
-- The worker keeps the accounts, and so does every run of the emitter.
use mathlib.Core.List.{append_assoc, append-nil}
use tokenweir.Prelude.{
  ℕ, zero, suc, ◌≡◌, refl, true, ◌||◌, Option, none, some, List, [], ◌∷◌, ◌++◌, length, take, drop,
  is_empty, min, arith, length-append, length-take, length-drop, take-append-drop,
}
use tokenweir.Python.{Outcome, returned, raised, exception, base_exception}
use tokenweir.Contract.Record.{UsageRecord}
use tokenweir.Emitter.Worker.{
  Sink, Phase, waiting, lingering, delivering, closing, finished, Config, work, work_at, look,
  keep_lingering, take_batch, leave, account, deliver, close_sink,
}
use tokenweir.Emitter.System.{
  History, World, pending, running, note, work_step, Step, offers, closes, gives_up, flushes,
  flushed, works, Reach, here, next, start,
}
use tokenweir.Emitter.Ledger.{
  Accounts, IsSound, offer_step-IsSound, begin_close-IsSound, begin_flush-IsSound,
  end_flush-IsSound, abandon_step-IsSound,
}

take_nil : (n : ℕ) → take {A = UsageRecord} n [] ≡ []
take_nil zero = refl
take_nil (suc n) = refl

take_order :
    (n : ℕ) (a b : List UsageRecord)
    → is_empty a || is_empty b ≡ true
    → take n b ++ (a ++ drop n b) ≡ a ++ b
take_order n [] b h = take-append-drop n b
take_order zero (x ∷ a) [] h = refl
take_order (suc n) (x ∷ a) [] h = refl
take_order n (x ∷ a) (y ∷ b) h = cc

is_empty-drop :
    (n : ℕ) (a b : List UsageRecord)
    → is_empty a || is_empty b ≡ true
    → is_empty a || is_empty (drop n b) ≡ true
is_empty-drop n [] b h = refl
is_empty-drop zero (x ∷ a) b h = h
is_empty-drop (suc n) (x ∷ a) [] h = h
is_empty-drop (suc n) (x ∷ a) (y ∷ b) h = cc

pub nil_of_is_empty : (l : List UsageRecord) → is_empty l ≡ true → l ≡ []
nil_of_is_empty [] h = refl
nil_of_is_empty (x ∷ l) h = cc

settle_order :
    (a l part rest x : List UsageRecord)
    → l ≡ []
    → a ++ (l ++ ((part ++ rest) ++ x)) ≡ (a ++ part) ++ (l ++ (rest ++ x))
settle_order a l part rest x e = rw e (simp append_assoc)

module _ {S : Type 0} {c : Config S} {h : History} where
  take_batch-Accounts :
      pending c.phase ≡ [] → running c.phase ≡ true → Accounts c h → Accounts (take_batch c) h
  unfolding take_batch
  take_batch-Accounts p r v =
      let e = c.emitter in
      let n = min (length e.buffer) e.batch_size in
      ground (
        arith,
        take_order n h.abandoned e.buffer,
        is_empty-drop n h.abandoned e.buffer,
        length-take n e.buffer,
        length-drop n e.buffer,
      )

  leave-Accounts : pending c.phase ≡ [] → Accounts c h → Accounts (leave c) h
  unfolding leave
  leave-Accounts p v = ground arith

  look-Accounts : (now : ℕ) → c.phase ≡ waiting → Accounts c h → Accounts (look now c) h
  unfolding look
  look-Accounts now p v =
      ground (
        arith,
        take_batch-Accounts (ground arith) (ground arith) v,
        leave-Accounts (ground arith) v,
      )

  keep_lingering-Accounts :
      (now d : ℕ) → c.phase ≡ lingering d → Accounts c h → Accounts (keep_lingering now d c) h
  unfolding keep_lingering
  keep_lingering-Accounts now d p v =
      ground (arith, take_batch-Accounts (ground arith) (ground arith) v)

  settle_batch-Accounts :
      c.phase ≡ delivering []
      → Accounts c h
      → Accounts (record c { emitter = record c.emitter { in_flight = 0 }; phase = waiting }) h
  settle_batch-Accounts p v = ground arith

  close_sink-Accounts :
      (sink : Sink S) (now : ℕ)
      → c.phase ≡ closing
      → Accounts c h
      → Accounts (close_sink sink now c) h
  unfolding close_sink
  close_sink-Accounts sink now p v = ground arith

  -- the phase's batch is `part ++ rest`, and the sink has answered for `part`
  account-Accounts :
      (now : ℕ) (part rest : List UsageRecord) (o : Outcome (Unit {0}) × S)
      → c.phase ≡ delivering (part ++ rest)
      → Accounts c h
      → Accounts (account now (length part) rest c o) (elim o.0 [
        | returned _ ↦ record h { settled = h.settled ++ part }
        | raised exception ↦ record h { settled = h.settled ++ part }
        | raised base_exception ↦ record h { lost = h.lost ++ (part ++ rest) }
      ])
  unfolding account leave
  account-Accounts now part rest (returned _, s) p v = ground (
    arith,
    nil_of_is_empty h.lost,
    settle_order h.settled h.lost part rest (h.abandoned ++ c.emitter.buffer),
    length-append h.settled part,
    length-append part rest,
  )
  account-Accounts now part rest (raised exception, s) p v = ground (
    arith,
    nil_of_is_empty h.lost,
    settle_order h.settled h.lost part rest (h.abandoned ++ c.emitter.buffer),
    length-append h.settled part,
    length-append part rest,
  )
  account-Accounts now part rest (raised base_exception, s) p v =
      ground (arith, append_assoc h.lost (part ++ rest) (h.abandoned ++ c.emitter.buffer))

  one-Accounts :
      (sink : Sink S) (now : ℕ) (r : UsageRecord) (rest : List UsageRecord)
      (o : Outcome (Unit {0}) × S)
      → c.phase ≡ delivering (r ∷ rest)
      → Accounts c h
      → let c' = account now 1 rest c o in
        Accounts c' (note (record sink { emit_batch = none }) (delivering (r ∷ rest)) c'.phase h)
  unfolding note account leave
  one-Accounts sink now r rest (returned u, s) p v =
      account-Accounts now (r ∷ []) rest (returned u, s) p v
  one-Accounts sink now r rest (raised exception, s) p v =
      account-Accounts now (r ∷ []) rest (raised exception, s) p v
  one-Accounts sink now r rest (raised base_exception, s) p v =
      account-Accounts now (r ∷ []) rest (raised base_exception, s) p v

  all-Accounts :
      (sink : Sink S) (send : List UsageRecord → S → Outcome (Unit {0}) × S) (now : ℕ)
      (r : UsageRecord) (rest : List UsageRecord) (o : Outcome (Unit {0}) × S)
      → c.phase ≡ delivering (r ∷ (rest ++ []))
      → Accounts c h
      → let c' = account now (suc (length rest)) [] c o in
        Accounts c'
          (note (record sink { emit_batch = some send }) (delivering (r ∷ rest)) c'.phase h)
  unfolding note account leave
  all-Accounts sink send now r rest (returned u, s) p v =
      account-Accounts now (r ∷ rest) [] (returned u, s) p v
  all-Accounts sink send now r rest (raised exception, s) p v =
      account-Accounts now (r ∷ rest) [] (raised exception, s) p v
  all-Accounts sink send now r rest (raised base_exception, s) p v =
      rw (← append-nil rest) (account-Accounts now (r ∷ rest) [] (raised base_exception, s) p v)

  deliver_by-Accounts :
      (sink : Sink S) (mode : Option (List UsageRecord → S → Outcome (Unit {0}) × S)) (now : ℕ)
      (r : UsageRecord) (rest : List UsageRecord)
      → c.phase ≡ delivering (r ∷ rest)
      → Accounts c h
      → let sink' = record sink { emit_batch = mode } in
        let c' = deliver sink' now r rest c in
        Accounts c' (note sink' (delivering (r ∷ rest)) c'.phase h)
  unfolding deliver
  deliver_by-Accounts sink none now r rest p v =
      one-Accounts sink now r rest (sink.emit r c.sink) p v
  deliver_by-Accounts sink (some send) now r rest p v =
      all-Accounts sink send now r rest (send (r ∷ rest) c.sink) (rw (append-nil rest) p) v

  -- One step of the worker, from any phase.
  work_at-Accounts :
      (sink : Sink S) (now : ℕ) (p : Phase)
      → c.phase ≡ p
      → Accounts c h
      → let c' = work_at sink now p c in Accounts c' (note sink p c'.phase h)
  unfolding note work_at
  work_at-Accounts sink now waiting e v = look-Accounts now e v
  work_at-Accounts sink now (lingering d) e v = keep_lingering-Accounts now d e v
  work_at-Accounts sink now (delivering []) e v = settle_batch-Accounts e v
  work_at-Accounts sink now (delivering (r ∷ rest)) e v =
      deliver_by-Accounts sink sink.emit_batch now r rest e v
  work_at-Accounts sink now closing e v = close_sink-Accounts sink now e v
  work_at-Accounts sink now finished e v = v

pub work_step-IsSound :
    {S : Type 0} (sink : Sink S) (now : ℕ) (w : World S)
    → IsSound w
    → IsSound (work_step sink now w)
unfolding work_step work
work_step-IsSound sink now w v = work_at-Accounts sink now w.config.phase refl v

pub Step-IsSound :
    {S : Type 0} {sink : Sink S} {v w : World S} → Step sink v w → IsSound v → IsSound w
Step-IsSound (offers now o w) v = offer_step-IsSound now o v
Step-IsSound (closes w) v = begin_close-IsSound v
Step-IsSound (gives_up now w c t) v = abandon_step-IsSound now c v
Step-IsSound (flushes w) v = begin_flush-IsSound v
Step-IsSound (flushed w p) v = end_flush-IsSound v
Step-IsSound {sink = sink} (works now w) v = work_step-IsSound sink now w v

-- Whatever the threads do, in any order, with any sink: the accounts of a new emitter stay sound.
pub Reach-IsSound :
    {S : Type 0} {sink : Sink S} (m b l i : ℕ) (s : S) (w : World S)
    → Reach sink (start m b l i s) w
    → IsSound w
Reach-IsSound m b l i s w here = ground arith
Reach-IsSound m b l i s w (next r st) = Step-IsSound st (Reach-IsSound m b l i s _ r)
