-- ===== src/Emitter/Drain.antt =====
-- emitter.py: the worker after `close`, run alone to its end.
use mathlib.Core.List.{append-nil}
use tokenweir.Prelude.{
  ℕ, zero, suc, ◌≤◌, ◌<◌, ◌≡◌, ◌≢◌, ◌⊎◌, inl, inr, refl, ◌∙◌, Bool, true, false, ◌&&◌, not, List,
  [], ◌∷◌, ◌++◌, length, is_empty, arith,
}
use tokenweir.Contract.Record.{UsageRecord}
use tokenweir.Emitter.Worker.{
  Sink, Phase, waiting, lingering, delivering, closing, finished, Config, work, work_at,
}
use tokenweir.Emitter.System.{World, pending, running, work_step, Reach, start}
use tokenweir.Emitter.Ledger.{IsSound}
use tokenweir.Emitter.Invariant.{work_step-IsSound, Reach-IsSound}
use tokenweir.Emitter.Totals.{Reach-Settings}
use tokenweir.Emitter.Progress.{
  steps_left, measure, Conforms, IsStopping, Kept, work_step-Kept, work_at-Nearer,
}

-- The worker alone, for `n` steps; `clock` is what it reads at each.
unfoldable pub run_worker : {S : Type 0} → Sink S → (ℕ → ℕ) → ℕ → World S → World S
run_worker sink clock zero w = w
run_worker sink clock (suc n) w = run_worker sink clock n (work_step sink (clock n) w)

pub finished-cases : (p : Phase) (n : ℕ) → (p ≡ finished) ⊎ ((p ≢ finished) × (0 < steps_left p n))
finished-cases finished n = inl refl
finished-cases waiting n = inr (λ e. cc, omega arith)
finished-cases (lingering d) zero = inr (λ e. cc, omega arith)
finished-cases (lingering d) (suc n) = inr (λ e. cc, omega arith)
finished-cases (delivering rs) n = inr (λ e. cc, omega arith)
finished-cases closing n = inr (λ e. cc, omega arith)

pub work_at-finished :
    {S : Type 0} (sink : Sink S) (now : ℕ) (p : Phase) (c : Config S)
    → p ≡ finished
    → work_at sink now p c ≡ c
unfolding work_at
work_at-finished sink now p c e = rw e

pub finished-measure : (p : Phase) (b n : ℕ) → p ≡ finished → steps_left p b ≤ n
finished-measure p b n e = rw e (omega arith)

work_step-IsStopping :
    {S : Type 0} (sink : Sink S) (now n : ℕ) (w : World S)
    → Conforms sink
    → IsStopping w.config
    → measure w.config ≤ suc n
    → IsStopping (work_step sink now w).config × (measure (work_step sink now w).config ≤ n)
unfolding work_step work
work_step-IsStopping sink now n w k v m =
    elim (finished-cases w.config.phase (length w.config.emitter.buffer)) [
      | inl e ↦
          rw (work_at-finished sink now w.config.phase w.config e)
            (v, finished-measure w.config.phase (length w.config.emitter.buffer) n e)
      | inr (ne, p) ↦
          let (v', lt) = work_at-Nearer sink now w.config.phase k ne refl v in (v', omega arith)
    ]

-- With enough steps the worker is at its end, and what has been accepted before is where it was.
run_worker-finished :
    {S : Type 0} (sink : Sink S) (clock : ℕ → ℕ) (n : ℕ) (w : World S)
    → Conforms sink
    → IsSound w
    → IsStopping w.config
    → measure w.config ≤ n
    → let w' = run_worker sink clock n w in
      (w'.config.phase ≡ finished) × IsSound w' × IsStopping w'.config × Kept w w'
unfolding run_worker
run_worker-finished sink clock zero w k a v m =
    elim (finished-cases w.config.phase (length w.config.emitter.buffer)) [
      | inl e ↦ (e, a, v, record { accepted = refl; abandoned = refl; lost = refl })
      | inr (ne, p) ↦ absurd (omega arith)
    ]
run_worker-finished sink clock (suc n) w k a v m =
    let (v', m') = work_step-IsStopping sink (clock n) n w k v m in
    let kept = work_step-Kept sink (clock n) w k in
    let (e, a', v'', later) =
      run_worker-finished sink clock n (work_step sink (clock n) w) k
        (work_step-IsSound sink (clock n) w a) v' m' in
    (
      e,
      a',
      v'',
      record {
        accepted = later.accepted ∙ kept.accepted;
        abandoned = later.abandoned ∙ kept.abandoned;
        lost = later.lost ∙ kept.lost;
      },
    )

no_loss : (l : List UsageRecord) (b : Bool) → b ≡ true → b && not (is_empty l) ≡ false → l ≡ []
no_loss [] b e h = refl
no_loss (x ∷ l) b e h = ground arith

pending-finished : (p : Phase) → p ≡ finished → pending p ≡ []
pending-finished p e = rw e

only_two :
    (s l p a b : List UsageRecord) → l ≡ [] → p ≡ [] → b ≡ [] → s ++ (l ++ (p ++ (a ++ b))) ≡ s ++ a
only_two s l p a b el ep eb = rw (el, ep, eb) (rw append-nil)

-- After `close`, over a sink that raises nothing but `Exception`, the worker, run alone for `measure`
-- steps, ends with an empty buffer and no record lost, and has settled, in order, what was accepted, but
-- for what an earlier `close` had given up.
pub close-run_worker :
    {S : Type 0} (sink : Sink S) (clock : ℕ → ℕ) (m b l i : ℕ) (s : S) (w : World S)
    → Conforms sink
    → 1 ≤ b
    → Reach sink (start m b l i s) w
    → w.config.emitter.closed ≡ true
    → running w.config.phase ≡ true
    → let w' = run_worker sink clock (measure w.config) w in
      (w'.config.phase ≡ finished)
      × (w'.config.emitter.buffer ≡ [])
      × (w'.history.accepted ≡ w.history.accepted)
      × (w'.history.accepted ≡ w'.history.settled ++ w.history.abandoned)
      × (w'.history.lost ≡ [])
close-run_worker sink clock m b l i s w k hb reach c r =
    let a = Reach-IsSound m b l i s w reach in
    let v : IsStopping w.config = record {
      stopping = a.stopping ∙ c;
      batch_size = omega (arith, (Reach-Settings m b l i s w reach).1);
      left = λ h. cc;
    } in
    let (e, a', v', kept) =
      run_worker-finished sink clock (measure w.config) w k a v (omega arith) in
    let w' = run_worker sink clock (measure w.config) w in
    let lost = kept.lost ∙ no_loss w.history.lost (running w.config.phase) r a.none_lost in
    let empty = v'.left (rw e) in
    let order =
      a'.order
      ∙ only_two w'.history.settled w'.history.lost (pending w'.config.phase) w'.history.abandoned
          w'.config.emitter.buffer lost (pending-finished w'.config.phase e) empty in
    (e, empty, kept.accepted, rw kept.abandoned at order, lost)
