-- ===== src/Hook/Scan.antt =====
-- What a scan counts: the first response under each identity, and all that have none.
use tokenweir.Prelude.{
  ◌+◌, String, Bool, true, false, ◌≡◌, refl, ◌∙◌, sym, subst, Option, none, some, List, [], ◌∷◌,
  ◌++◌, arith, any, contains, length, str_eq, eq_iff, if◌then◌else◌, Option-cases, inl, inr,
}
use tokenweir.Hook.Counts.{TokenTotals, no_tokens, add, covers, from_mapping}
use tokenweir.Hook.Transcript.{
  Entry, Response, response, Scan, ScanResult, count_response, scan_response, scan_parsed,
  scan_line, scan_lines, fresh_scan, read_to_end, scan_transcript,
}
use tokenweir.Hook.Arithmetic.{covers-add, covers_refl, covers_trans, add_assoc, add_zero, zero_add}

abbrev pub with_response : Option Response → List Response → List Response
with_response none rs = rs
with_response (some r) rs = r ∷ rs

-- The responses of a transcript, in order.
abbrev pub responses : (String → Option Entry) → List String → List Response
responses loads [] = []
responses loads (line ∷ rest) = with_response (response loads line) (responses loads rest)

abbrev pub is_named : String → Response → Bool
is_named i r = elim r.identity [ none ↦ false | some j ↦ str_eq j i ]

-- An earlier response bears the identity.
abbrev pub is_repeat : List Response → Response → Bool
is_repeat earlier r = elim r.identity [ none ↦ false | some i ↦ any (is_named i) earlier ]

-- The responses that are no repeats.
abbrev pub firsts : List Response → List Response → List Response
firsts earlier [] = []
firsts earlier (r ∷ rs) =
    let more = firsts (r ∷ earlier) rs in if is_repeat earlier r then more else r ∷ more

abbrev pub sum_usage : List Response → TokenTotals
sum_usage [] = no_tokens
sum_usage (r ∷ rs) = add (from_mapping (some r.usage)) (sum_usage rs)

-- The scan has seen the identities of these responses.
abbrev pub HasSeen : Scan → List Response → Type 0
HasSeen s earlier = (i : String) → contains i s.seen ≡ any (is_named i) earlier

-- one step of the scan, and what it makes of a response after these
pub scan_response-HasSeen :
    (r : Response) (s : Scan) (earlier : List Response)
    → HasSeen s earlier
    → HasSeen (scan_response r s) (r ∷ earlier)
unfolding scan_response
scan_response-HasSeen r s earlier h i = elim (Option-cases r.identity) [
  | inl e ↦ ground (arith, h i)
  | inr (j, e) ↦ ground (arith, h i, h j, eq_iff j i)
]

scan_response-result :
    (r : Response) (s : Scan) (earlier : List Response)
    → HasSeen s earlier
    → (scan_response r s).result
      ≡ (if is_repeat earlier r then s.result else count_response r s.result)
unfolding scan_response
scan_response-result r s earlier h = elim (Option-cases r.identity) [
  | inl e ↦ ground arith
  | inr (j, e) ↦ ground (arith, h j)
]

-- The totals are the start's and those of the first responses.
abbrev Sums : ScanResult → List Response → ScanResult → Type 0
Sums s rs s' = (s'.totals ≡ add s.totals (sum_usage rs)) × (s'.counted ≡ s.counted + length rs)

Sums-count :
    (r : Response) (s s' : ScanResult) (rs : List Response)
    → Sums (count_response r s) rs s'
    → Sums s (r ∷ rs) s'
unfolding count_response
Sums-count r s s' rs h =
    ground (arith, add_assoc s.totals (from_mapping (some r.usage)) (sum_usage rs))

abbrev pub scan_responses : List Response → Scan → Scan
scan_responses [] s = s
scan_responses (r ∷ rs) s = scan_responses rs (scan_response r s)

scan_responses-with_response :
    (m : Option Response) (rs : List Response) (s : Scan)
    → scan_responses rs (scan_parsed m s) ≡ scan_responses (with_response m rs) s
unfolding scan_parsed
scan_responses-with_response none rs s = refl
scan_responses-with_response (some r) rs s = refl

pub scan_lines-responses :
    (loads : String → Option Entry) (lines : List String) (s : Scan)
    → scan_lines loads lines s ≡ scan_responses (responses loads lines) s
unfolding scan_lines scan_line
scan_lines-responses loads [] s = refl
scan_lines-responses loads (line ∷ rest) s =
    scan_lines-responses loads rest (scan_line loads line s)
    ∙ scan_responses-with_response (response loads line) (responses loads rest) s

scan_responses-Sums :
    (rs : List Response) (s : Scan) (earlier : List Response)
    → HasSeen s earlier
    → Sums s.result (firsts earlier rs) (scan_responses rs s).result
scan_responses-Sums [] s earlier h = ground (arith, add_zero s.result.totals)
scan_responses-Sums (r ∷ rs) s earlier h =
    let rest =
      scan_responses-Sums rs (scan_response r s) (r ∷ earlier)
        (scan_response-HasSeen r s earlier h) in
    let end = (scan_responses rs (scan_response r s)).result in
    ground (
      arith,
      rest,
      scan_response-result r s earlier h,
      Sums-count r s.result end (firsts (r ∷ earlier) rs),
    )

-- The totals of a transcript that was read to its end are the sum over its responses, each counted at
-- its first occurrence: a response is left out exactly when an earlier one bears its identity.
pub scan_transcript-firsts :
    (loads : String → Option Entry) (lines : List String)
    → let found = firsts [] (responses loads lines) in
      let scan = scan_transcript loads (read_to_end lines) in
      (scan.totals ≡ sum_usage found) × (scan.counted ≡ length found)
unfolding scan_transcript
scan_transcript-firsts loads lines =
    let found = firsts [] (responses loads lines) in
    let sums = scan_responses-Sums (responses loads lines) fresh_scan [] (λ i. refl) in
    ground (arith, sums, scan_lines-responses loads lines fresh_scan, zero_add (sum_usage found))

pub scan_lines-append :
    (loads : String → Option Entry) (xs ys : List String) (s : Scan)
    → scan_lines loads (xs ++ ys) s ≡ scan_lines loads ys (scan_lines loads xs s)
unfolding scan_lines
scan_lines-append loads [] ys s = refl
scan_lines-append loads (x ∷ xs) ys s = scan_lines-append loads xs ys (scan_line loads x s)

scan_response-covers :
    (r : Response) (s : Scan) → covers (scan_response r s).result.totals s.result.totals ≡ true
unfolding scan_response count_response
scan_response-covers r s =
    ground
      (arith, covers_refl s.result.totals, covers-add s.result.totals (from_mapping (some r.usage)))

scan_responses-covers :
    (rs : List Response) (s : Scan)
    → covers (scan_responses rs s).result.totals s.result.totals ≡ true
scan_responses-covers [] s = covers_refl s.result.totals
scan_responses-covers (r ∷ rs) s =
    covers_trans _ (scan_response r s).result.totals _
      (scan_responses-covers rs (scan_response r s)) (scan_response-covers r s)

-- A transcript that has grown covers what it counted before: the totals of its first lines never
-- exceed those of the whole.
pub scan_transcript-covers :
    (loads : String → Option Entry) (xs ys : List String)
    → covers
        (scan_transcript loads (read_to_end (xs ++ ys))).totals
        (scan_transcript loads (read_to_end xs)).totals
      ≡ true
unfolding scan_transcript
scan_transcript-covers loads xs ys =
    let s = scan_lines loads xs fresh_scan in
    let path = scan_lines-append loads xs ys fresh_scan ∙ scan_lines-responses loads ys s in
    subst (λ z. covers z.result.totals s.result.totals ≡ true) (sym path)
      (scan_responses-covers (responses loads ys) s)
