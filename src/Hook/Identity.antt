-- ===== src/Hook/Identity.antt =====
-- The identity of a turn's record: a scan that has counted more never ends on an identity that
-- an earlier turn could have had.
use tokenweir.Prelude.{
  ◌<◌, String, false, ◌≡◌, ◌≢◌, ◌⊎◌, inl, inr, refl, ◌∙◌, Option, some, List, [], ◌∷◌, ◌++◌, arith,
  any, contains, eq_iff, Option-cases,
}
use tokenweir.Hook.Transcript.{
  Entry, Response, Scan, count_response, scan_response, scan_lines, fresh_scan, read_to_end,
  scan_transcript,
}
use tokenweir.Hook.Scan.{
  responses, is_named, scan_responses, scan_lines-responses, scan_lines-append,
}

-- Nothing more was counted, or the last identity is not `i`, or `i` had not been seen.
abbrev Fresh : String → Scan → Scan → Type 0
Fresh i s s' =
    ((s'.result.counted ≡ s.result.counted)
      × (s'.result.last_message_id ≡ s.result.last_message_id))
    ⊎ ((s.result.counted < s'.result.counted)
        × ((s'.result.last_message_id ≢ some i) ⊎ (contains i s.seen ≡ false)))

scan_response-Fresh : (i : String) (r : Response) (s : Scan) → Fresh i s (scan_response r s)
unfolding scan_response count_response
scan_response-Fresh i r s = elim (Option-cases r.identity) [
  | inl e ↦ ground arith
  | inr (j, e) ↦ ground (arith, eq_iff j i)
]

scan_response-contains :
    (i : String) (r : Response) (s : Scan)
    → contains i (scan_response r s).seen ≡ false
    → (is_named i r ≡ false) × (contains i s.seen ≡ false)
unfolding scan_response
scan_response-contains i r s h = elim (Option-cases r.identity) [
  | inl e ↦ ground arith
  | inr (j, e) ↦ ground (arith, eq_iff j i)
]

scan_responses-Fresh :
    (i : String) (rs : List Response) (s : Scan) → Fresh i s (scan_responses rs s)
scan_responses-Fresh i [] s = inl (refl, refl)
scan_responses-Fresh i (r ∷ rs) s =
    let v = scan_response r s in
    ground
      (arith, scan_response-Fresh i r s, scan_responses-Fresh i rs v, scan_response-contains i r s)

scan_responses-contains :
    (i : String) (rs : List Response) (s : Scan)
    → contains i (scan_responses rs s).seen ≡ false
    → (any (is_named i) rs ≡ false) × (contains i s.seen ≡ false)
scan_responses-contains i [] s h = (refl, h)
scan_responses-contains i (r ∷ rs) s h =
    let rest = scan_responses-contains i rs (scan_response r s) h in
    ground (arith, rest, scan_response-contains i r s)

-- When a transcript has grown and more responses are counted, the identity that the scan ends on,
-- if there is one, is borne by no response of the transcript as it was.
pub scan_transcript-identity :
    (loads : String → Option Entry) (xs ys : List String) (i : String)
    → let before = scan_transcript loads (read_to_end xs) in
      let after = scan_transcript loads (read_to_end (xs ++ ys)) in
      before.counted < after.counted
      → after.last_message_id ≡ some i
      → any (is_named i) (responses loads xs) ≡ false
unfolding scan_transcript
scan_transcript-identity loads xs ys i lt e =
    let s = scan_lines loads xs fresh_scan in
    let path = scan_lines-append loads xs ys fresh_scan ∙ scan_lines-responses loads ys s in
    let seen = scan_lines-responses loads xs fresh_scan in
    ground (
      arith,
      path,
      seen,
      scan_responses-Fresh i (responses loads ys) s,
      scan_responses-contains i (responses loads xs) fresh_scan,
    )
