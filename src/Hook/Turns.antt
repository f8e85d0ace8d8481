-- ===== src/Hook/Turns.antt =====
-- What the calls of the hook over a growing transcript meter.
use Prim.Native.Char.{Char}
use tokenweir.Prelude.{
  ℕ, String, Bool, true, inl, inr, Bool-cases, ◌∙◌, ◌≡◌, refl, sym, Option, none, some, List, [],
  ◌∷◌, ◌++◌, arith, is_some, if◌then◌else◌,
}
use tokenweir.Python.{Outcome, returned, raised}
use tokenweir.Contract.Record.{UsageRecord}
use tokenweir.Hook.Counts.{TokenTotals, no_tokens, add, minus, covers, is_zero, turn_delta}
use tokenweir.Hook.Transcript.{Entry, File, ScanResult, read_to_end, unopenable, scan_transcript}
use tokenweir.Hook.Pipeline.{
  Stored, read_baseline, write_baseline, Emission, kept, Turn, settle, emission_ended, emit_delta,
  run,
}
use tokenweir.Hook.Arithmetic.{add-minus, covers_refl, covers_trans, add_zero, from_mapping-as_dict}
use tokenweir.Hook.Contracted.{counts_of}
use tokenweir.Hook.Emitted.{Surroundings, emission_in, emission_in-counts_of}
use tokenweir.Hook.Scan.{scan_transcript-covers}

-- What was written is read back.
read_baseline-write_baseline :
    (t : TokenTotals) (stored : Stored) → read_baseline (write_baseline true t stored) ≡ t
unfolding read_baseline write_baseline
read_baseline-write_baseline t stored = from_mapping-as_dict t

abbrev pub record_counts : Option UsageRecord → TokenTotals
record_counts none = no_tokens
record_counts (some r) = counts_of r

-- What a call meters: the counts of the record that it returns, if it returns one.
-- the record of a call that returned one
abbrev pub record_of : Outcome (Option UsageRecord) → Option UsageRecord
record_of (returned r) = r
record_of (raised e) = none

abbrev pub metered : (String → Option Entry) → Turn → Stored → TokenTotals
metered loads t stored = record_counts (record_of (run loads t stored).0)

-- A record that was emitted for a delta carries the delta.
abbrev pub CarriesDelta : (TokenTotals → ScanResult → Outcome Emission) → Type 0
CarriesDelta emission =
    (delta : TokenTotals) (scan : ScanResult) (e : Emission) (r : UsageRecord)
    → emission delta scan ≡ returned e
    → e.usage_record ≡ some r
    → counts_of r ≡ delta

settle_lem :
    (e : Emission) (totals : TokenTotals) (stored : Stored)
    → let (r, stored') = settle e true totals stored in
      read_baseline stored' ≡ (if is_some r then totals else read_baseline stored)
unfolding settle kept
settle_lem e totals stored = ground (arith, read_baseline-write_baseline totals stored)

emission_ended_lem :
    (o : Outcome Emission) (totals : TokenTotals) (stored : Stored)
    → let (r, stored') = emission_ended o true totals stored in
      read_baseline stored' ≡ (if is_some (record_of r) then totals else read_baseline stored)
unfolding emission_ended
emission_ended_lem (returned e) totals stored = settle_lem e totals stored
emission_ended_lem (raised e) totals stored = refl

emit_delta_lem :
    (t : Turn) (scan : ScanResult) (stored : Stored) (delta : TokenTotals)
    → t.written ≡ true
    → let (r, stored') = emit_delta t scan stored (some delta) in
      read_baseline stored' ≡ (if is_some (record_of r) then scan.totals else read_baseline stored)
unfolding emit_delta
emit_delta_lem t scan stored delta h =
    ground (arith, emission_ended_lem (t.emission delta scan) scan.totals stored)

-- The transcript covers the baseline.
abbrev pub Covers : (String → Option Entry) → File → Stored → Type 0
Covers loads file stored = covers (scan_transcript loads file).totals (read_baseline stored) ≡ true

-- With a baseline that can be written, on a transcript that covers it, `run` moves the baseline to
-- the totals of the transcript if it returns a record, and leaves it if it returns none.
pub run-read_baseline :
    (loads : String → Option Entry) (t : Turn) (stored : Stored)
    → t.written ≡ true
    → Covers loads t.file stored
    → let (r, stored') = run loads t stored in
      read_baseline stored' ≡ (
        if is_some (record_of r)
        then (scan_transcript loads t.file).totals
        else read_baseline stored)
unfolding run turn_delta
run-read_baseline loads t stored h c =
    let scan = scan_transcript loads t.file in
    let b = read_baseline stored in
    ground (arith, emit_delta_lem t scan stored (minus scan.totals b))

settle-some :
    (e : Emission) (written : Bool) (totals : TokenTotals) (stored : Stored) (r : UsageRecord)
    → (settle e written totals stored).0 ≡ some r
    → e.usage_record ≡ some r
unfolding settle
settle-some e written totals stored r h = ground arith

emission_ended-some :
    (o : Outcome Emission) (written : Bool) (totals : TokenTotals) (stored : Stored)
    (r : UsageRecord)
    → record_of (emission_ended o written totals stored).0 ≡ some r
    → (e : Emission) × (o ≡ returned e) × (e.usage_record ≡ some r)
unfolding emission_ended
emission_ended-some (returned e) written totals stored r h =
    (e, refl, settle-some e written totals stored r h)
emission_ended-some (raised e) written totals stored r h = cc

emit_delta-some :
    (t : Turn) (scan : ScanResult) (stored : Stored) (delta : TokenTotals) (r : UsageRecord)
    → record_of (emit_delta t scan stored (some delta)).0 ≡ some r
    → (e : Emission) × (t.emission delta scan ≡ returned e) × (e.usage_record ≡ some r)
unfolding emit_delta
emit_delta-some t scan stored delta r h = elim (Bool-cases (is_zero delta)) [
  | inl z ↦ absurd (ground arith)
  | inr z ↦ emission_ended-some (t.emission delta scan) t.written scan.totals stored r (rw z at h)
]

emit_delta-carried :
    (t : Turn) (scan : ScanResult) (stored : Stored) (delta : TokenTotals) (r : UsageRecord)
    → CarriesDelta t.emission
    → record_of (emit_delta t scan stored (some delta)).0 ≡ some r
    → counts_of r ≡ delta
emit_delta-carried t scan stored delta r k h =
    let (e, o, u) = emit_delta-some t scan stored delta r h in k delta scan e r o u

-- A record that `run` returns carries what the transcript has over the baseline.
run-some :
    (loads : String → Option Entry) (t : Turn) (stored : Stored) (r : UsageRecord)
    → CarriesDelta t.emission
    → Covers loads t.file stored
    → record_of (run loads t stored).0 ≡ some r
    → counts_of r ≡ minus (scan_transcript loads t.file).totals (read_baseline stored)
unfolding run turn_delta
run-some loads t stored r k c h =
    let scan = scan_transcript loads t.file in
    let delta = minus scan.totals (read_baseline stored) in
    ground (arith, emit_delta-carried t scan stored delta r k)

counts_added :
    (o : Option UsageRecord) (base totals : TokenTotals)
    → covers totals base ≡ true
    → ((r : UsageRecord) → o ≡ some r → counts_of r ≡ minus totals base)
    → (if is_some o then totals else base) ≡ add base (record_counts o)
counts_added none base totals c h = sym (add_zero base)
counts_added (some r) base totals c h = rw (h r refl) (sym (add-minus totals base c))

run-metered :
    (loads : String → Option Entry) (t : Turn) (stored : Stored)
    → CarriesDelta t.emission
    → t.written ≡ true
    → Covers loads t.file stored
    → read_baseline (run loads t stored).1 ≡ add (read_baseline stored) (metered loads t stored)
run-metered loads t stored k h c =
    run-read_baseline loads t stored h c
    ∙ counts_added (record_of (run loads t stored).0) (read_baseline stored)
        (scan_transcript loads t.file).totals c (λ r e. run-some loads t stored r k c e)

run-Covers :
    (loads : String → Option Entry) (t : Turn) (stored : Stored)
    → t.written ≡ true
    → Covers loads t.file stored
    → Covers loads t.file (run loads t stored).1
run-Covers loads t stored h c =
    ground (
      arith,
      run-read_baseline loads t stored h c,
      covers_refl (scan_transcript loads t.file).totals,
    )

-- A session: before each call the transcript has grown by some lines, the path is given and the
-- baseline can be written.
pub record Stop : Type 0 where
  pub path : String
  pub new_lines : List String
  pub surroundings : Surroundings

Covers-grow :
    (loads : String → Option Entry) (xs ys : List String) (stored : Stored)
    → Covers loads (read_to_end xs) stored
    → Covers loads (read_to_end (xs ++ ys)) stored
Covers-grow loads xs ys stored c =
    covers_trans _ (scan_transcript loads (read_to_end xs)).totals _
      (scan_transcript-covers loads xs ys) c

module _ (lower : String → String) (digit : Char → Option ℕ) where
  abbrev pub turn_of : Stop → List String → Turn
  turn_of s lines = record {
    transcript_path = some s.path;
    file = read_to_end lines;
    written = true;
    emission = emission_in lower digit s.surroundings;
  }

  -- The lines, the baseline and the sum of what was metered after the calls of a session.
  abbrev pub session :
      (String → Option Entry)
      → List Stop
      → List String
      → Stored
      → TokenTotals
      → List String × Stored × TokenTotals
  session loads [] lines stored sum = (lines, stored, sum)
  session loads (s ∷ rest) lines stored sum =
      let now = lines ++ s.new_lines in
      let t = turn_of s now in
      session loads rest now (run loads t stored).1 (add sum (metered loads t stored))

  -- Over the calls of a session in which the transcript only grows and the baseline can be written,
  -- and whose transcript covers the baseline at the start, the counts of the records that the calls
  -- return, added to the baseline at the start, are the baseline at the end, whichever records the
  -- emitter refused or the transport lost and whichever calls raised; and the transcript covers the
  -- baseline at the end.
  pub session-metered :
      (loads : String → Option Entry) (stops : List Stop) (lines : List String) (stored : Stored)
      (sum : TokenTotals)
      → Covers loads (read_to_end lines) stored
      → sum ≡ read_baseline stored
      → let (lines', stored', sum') = session loads stops lines stored sum in
        (sum' ≡ read_baseline stored') × Covers loads (read_to_end lines') stored'
  session-metered loads [] lines stored sum c h = (h, c)
  session-metered loads (s ∷ rest) lines stored sum c h =
      let now = lines ++ s.new_lines in
      let t = turn_of s now in
      let grown = Covers-grow loads lines s.new_lines stored c in
      let carries : CarriesDelta t.emission = emission_in-counts_of lower digit s.surroundings in
      session-metered loads rest now (run loads t stored).1 (add sum (metered loads t stored))
        (run-Covers loads t stored refl grown)
        (rw h (sym (run-metered loads t stored carries refl grown)))

-- A transcript that cannot be opened changes nothing and meters nothing, whatever the baseline.
pub run-unopenable :
    (loads : String → Option Entry) (t : Turn) (stored : Stored)
    → t.file ≡ unopenable
    → run loads t stored ≡ (returned none, stored)
unfolding run turn_delta emit_delta scan_transcript is_zero covers minus
run-unopenable loads t stored h = ground arith
