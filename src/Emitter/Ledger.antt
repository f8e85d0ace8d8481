-- ===== src/Emitter/Ledger.antt =====
-- The invariant of the emitter: every object that was offered is accounted for, once.
use mathlib.Core.List.{append_assoc, append-nil}
use tokenweir.Prelude.{
  ℕ, ◌+◌, ◌≤◌, ◌≡◌, true, false, ◌&&◌, ◌||◌, not, List, [], ◌∷◌, ◌++◌, length, is_empty, arith,
  length-append,
}
use tokenweir.Contract.Record.{UsageRecord, Object, usage, other_object}
use tokenweir.Emitter.Producer.{offer, begin_close, abandon, begin_flush, end_flush}
use tokenweir.Emitter.Worker.{Config}
use tokenweir.Emitter.System.{
  History, World, pending, running, with_emitter, offer_step, abandon_step,
}

pub record Accounts {S : Type 0} (c : Config S) (h : History) : Type 0 where
  -- every accepted record is in one place, and the places are in the order of acceptance
  pub order :
      h.accepted ≡ h.settled ++ (h.lost ++ (pending c.phase ++ (h.abandoned ++ c.emitter.buffer)))
  pub accepted : c.emitter.accepted ≡ length h.accepted
  pub settled : c.emitter.delivered + c.emitter.failed ≡ length h.settled
  pub given_up : c.emitter.dropped_at_close ≡ length h.abandoned
  pub offers :
      h.offers
      ≡ c.emitter.accepted + c.emitter.dropped_buffer_full + c.emitter.dropped_not_a_record
        + c.emitter.dropped_closed
  pub bounded : length c.emitter.buffer ≤ c.emitter.max_buffer
  pub in_flight : length (pending c.phase) ≤ c.emitter.in_flight
  pub batch : length (pending c.phase) ≤ c.emitter.batch_size
  pub alive : c.emitter.worker_alive ≡ running c.phase
  pub none_lost : running c.phase && not (is_empty h.lost) ≡ false
  pub given_up_last : is_empty h.abandoned || is_empty c.emitter.buffer ≡ true
  pub given_up_closed : is_empty h.abandoned || c.emitter.closed ≡ true
  pub stopping : c.emitter.stopping ≡ c.emitter.closed

abbrev pub IsSound : {S : Type 0} → World S → Type 0
IsSound w = Accounts w.config w.history

-- Appending at the end of the last of five parts.
regroup_last :
    (a b c d e f : List UsageRecord)
    → (a ++ (b ++ (c ++ (d ++ e)))) ++ f ≡ a ++ (b ++ (c ++ (d ++ (e ++ f))))
regroup_last a b c d e f = simp append_assoc

pub offer_step-IsSound :
    {S : Type 0} (now : ℕ) (o : Object) {w : World S} → IsSound w → IsSound (offer_step now o w)
unfolding offer_step offer
offer_step-IsSound now (usage r) {w} v =
    let h = w.history in
    ground (
      arith,
      regroup_last h.settled h.lost (pending w.config.phase) h.abandoned w.config.emitter.buffer
          (r ∷ []),
      length-append h.accepted (r ∷ []),
      length-append w.config.emitter.buffer (r ∷ []),
    )
offer_step-IsSound now other_object v = ground arith

pub begin_close-IsSound :
    {S : Type 0} {w : World S} → IsSound w → IsSound (with_emitter (begin_close w.config.emitter) w)
unfolding begin_close
begin_close-IsSound v = ground arith

pub begin_flush-IsSound :
    {S : Type 0} {w : World S} → IsSound w → IsSound (with_emitter (begin_flush w.config.emitter) w)
unfolding begin_flush
begin_flush-IsSound v = ground arith

pub end_flush-IsSound :
    {S : Type 0} {w : World S} → IsSound w → IsSound (with_emitter (end_flush w.config.emitter).0 w)
unfolding end_flush
end_flush-IsSound v = ground arith

pub abandon_step-IsSound :
    {S : Type 0} (now : ℕ) {w : World S}
    → w.config.emitter.closed ≡ true
    → IsSound w
    → IsSound (abandon_step now w)
unfolding abandon_step abandon
abandon_step-IsSound now {w} p v =
    let h = w.history in
    ground (
      arith,
      append-nil (h.abandoned ++ w.config.emitter.buffer),
      length-append h.abandoned w.config.emitter.buffer,
    )
