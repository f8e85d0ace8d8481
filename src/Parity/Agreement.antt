-- ===== src/Parity/Agreement.antt =====
-- `iter_turns` counts what the hook's scan counts.
use tokenweir.Prelude.{
  both, ℕ, suc, ◌+◌, ◌<◌, String, Bool, true, false, ◌||◌, not, ◌≡◌, refl, ◌∙◌, ap, sym, Option,
  none, some, List, [], ◌∷◌, map, Dict, length, any, all, str_eq, eq_iff, if◌then◌else◌, Bool-cases,
  Option-cases, inl, inr, arith,
}
use tokenweir.Hook.Counts.{TokenTotals, no_tokens, add, from_mapping}
use tokenweir.Hook.Arithmetic.{add_assoc, add_zero, zero_add}
use tokenweir.Hook.Transcript.{Entry, Response, response, read_to_end, scan_transcript}
use tokenweir.Hook.Scan.{
  with_response, responses, is_named, is_repeat, firsts, sum_usage, scan_transcript-firsts,
}
use tokenweir.Parity.Turns.{
  Content, Blocks, Accumulator, Gathering, anonymous_key, gather_response, gather_parsed,
  gather_lines, Turn, is_anonymous, turn_of, nothing_gathered, iter_turns,
}
use tokenweir.Parity.Keys.{
  holds, usage_sum, holds-gather, usage_sum-gather, length-gather, is_anonymous-anonymous_key,
  other_number,
}

-- the sum over turns
abbrev pub turn_sum : List Turn → TokenTotals
turn_sum [] = no_tokens
turn_sum (t ∷ ts) = add (from_mapping (some t.usage)) (turn_sum ts)

turn_sum-map : (d : Dict Accumulator) → turn_sum (map turn_of d) ≡ usage_sum d
unfolding turn_of
turn_sum-map [] = refl
turn_sum-map ((k, a) ∷ d) = ap (add (from_mapping (some a.usage))) (turn_sum-map d)

length-map : (d : Dict Accumulator) → length (map turn_of d) ≡ length d
length-map [] = refl
length-map (e ∷ d) = ap suc (length-map d)

-- the keys of what is gathered: the identities of these responses, and no anonymous one to come
record Gathered (g : Gathering) (earlier : List Response) : Type 0 where
  named : (i : String) → is_anonymous i ≡ false → holds i g.turns ≡ any (is_named i) earlier
  fresh : (n : ℕ) → g.anonymous < n → holds (anonymous_key n) g.turns ≡ false

-- no identity looks like an anonymous key
abbrev pub is_plain : Response → Bool
is_plain r = elim r.identity [ none ↦ true | some i ↦ not (is_anonymous i) ]

other_key : (i : String) (n : ℕ) → is_anonymous i ≡ false → str_eq (anonymous_key n) i ≡ false
other_key i n h = elim (Bool-cases (str_eq (anonymous_key n) i)) [
  | inl e ↦
      let same_key = (eq_iff (anonymous_key n) i).0 e in
      let p = sym (is_anonymous-anonymous_key n) ∙ (ap is_anonymous same_key ∙ h) in
      absurd (ground arith)
  | inr e ↦ e
]

other_identity : (i : String) (n : ℕ) → is_anonymous i ≡ false → str_eq i (anonymous_key n) ≡ false
other_identity i n h =
    ground (arith, other_key i n h, eq_iff (anonymous_key n) i, eq_iff i (anonymous_key n))

plain_identity :
    (r : Response) (j : String) → r.identity ≡ some j → is_plain r ≡ true → is_anonymous j ≡ false
plain_identity r j e h = ground arith

anonymous_none :
    (r : Response) (b : Blocks) (g : Gathering)
    → r.identity ≡ none
    → (gather_response r b g).anonymous ≡ suc g.anonymous
unfolding gather_response
anonymous_none r b g e = rw e refl

anonymous_some :
    (r : Response) (b : Blocks) (g : Gathering) (j : String)
    → r.identity ≡ some j
    → (gather_response r b g).anonymous ≡ g.anonymous
unfolding gather_response
anonymous_some r b g j e = rw e refl

gather_response-Gathered :
    (r : Response) (b : Blocks) (g : Gathering) (earlier : List Response)
    → is_plain r ≡ true
    → Gathered g earlier
    → Gathered (gather_response r b g) (r ∷ earlier)
unfolding gather_response
gather_response-Gathered r b g earlier plain h = elim (Option-cases r.identity) [
  | inl e ↦ record {
    named = λ i p. rw e (
        holds-gather i (anonymous_key (suc g.anonymous)) (record r { identity = none }) b g.turns
        ∙ rw (other_key i (suc g.anonymous) p) (h.named i p));
    fresh = λ n lt. rw e (
        holds-gather (anonymous_key n) (anonymous_key (suc g.anonymous))
          (record r { identity = none }) b g.turns
        ∙ rw (other_number (suc g.anonymous) n (omega (lt, anonymous_none r b g e, arith)))
            (h.fresh n (omega (lt, anonymous_none r b g e, arith))));
  }
  | inr (j, e) ↦ record {
    named = λ i p. rw e (
        holds-gather i j (record r { identity = some j }) b g.turns
        ∙ ap (λ t. str_eq j i || t) (h.named i p));
    fresh = λ n lt. rw e (
        holds-gather (anonymous_key n) j (record r { identity = some j }) b g.turns
        ∙ rw (other_identity j n (plain_identity r j e plain))
            (h.fresh n (omega (lt, anonymous_some r b g j e, arith))));
  }
]

-- a line adds its response's usage if no earlier line has borne its identity
Added : Gathering → Response → Bool → Gathering → Type 0
Added g r repeat g' =
    (usage_sum g'.turns ≡ (
      if repeat then usage_sum g.turns else add (usage_sum g.turns) (from_mapping (some r.usage))))
    × (length g'.turns ≡ (if repeat then length g.turns else suc (length g.turns)))

gather_response-Added :
    (r : Response) (b : Blocks) (g : Gathering) (earlier : List Response)
    → is_plain r ≡ true
    → Gathered g earlier
    → Added g r (is_repeat earlier r) (gather_response r b g)
unfolding gather_response Added
gather_response-Added r b g earlier plain h = elim (Option-cases r.identity) [
  | inl e ↦
      let none_yet = h.fresh (suc g.anonymous) (omega arith) in
      let key = anonymous_key (suc g.anonymous) in
      let one = record r { identity = none } in
      rw e (
        usage_sum-gather key one b g.turns ∙ rw none_yet refl,
        length-gather key one b g.turns ∙ rw none_yet refl,
      )
  | inr (j, e) ↦
      let known = h.named j (plain_identity r j e plain) in
      let one = record r { identity = some j } in
      rw e (
        usage_sum-gather j one b g.turns ∙ rw known refl,
        length-gather j one b g.turns ∙ rw known refl,
      )
]

-- what the lines add to what was gathered before
Sums : Gathering → List Response → Gathering → Type 0
Sums g rs g' =
    (usage_sum g'.turns ≡ add (usage_sum g.turns) (sum_usage rs))
    × (length g'.turns ≡ length g.turns + length rs)

Sums-Added :
    (g g₁ g₂ : Gathering) (r : Response) (repeat : Bool) (rs : List Response)
    → Added g r repeat g₁
    → Sums g₁ rs g₂
    → Sums g (if repeat then rs else r ∷ rs) g₂
unfolding Added Sums
Sums-Added g g₁ g₂ r true rs a h = (h.0 ∙ ap (λ t. add t (sum_usage rs)) a.0, ground arith)
Sums-Added g g₁ g₂ r false rs a h = (
  h.0
      ∙ (ap (λ t. add t (sum_usage rs)) a.0
          ∙ add_assoc (usage_sum g.turns) (from_mapping (some r.usage)) (sum_usage rs)),
  ground arith,
)

gather_parsed-Sums :
    (loads : String → Option Entry) (content : String → Content) (rest : List String)
    (m : Option Response) (b : Blocks) (g : Gathering) (earlier : List Response)
    → all is_plain (with_response m (responses loads rest)) ≡ true
    → Gathered g earlier
    → ((g' : Gathering) (earlier' : List Response)
        → all is_plain (responses loads rest) ≡ true
        → Gathered g' earlier'
        → Sums g' (firsts earlier' (responses loads rest)) (gather_lines loads content rest g'))
    → Sums g
        (firsts earlier (with_response m (responses loads rest)))
        (gather_lines loads content rest (gather_parsed m b g))
unfolding gather_parsed
gather_parsed-Sums loads content rest none b g earlier plain h rec = rec g earlier plain h
gather_parsed-Sums loads content rest (some r) b g earlier plain h rec =
    let first = both (is_plain r) (all is_plain (responses loads rest)) plain in
    let g₁ = gather_response r b g in
    Sums-Added g g₁ (gather_lines loads content rest g₁) r (is_repeat earlier r)
      (firsts (r ∷ earlier) (responses loads rest)) (gather_response-Added r b g earlier first.0 h)
      (rec g₁ (r ∷ earlier) first.1 (gather_response-Gathered r b g earlier first.0 h))

gather_lines-Sums :
    (loads : String → Option Entry) (content : String → Content) (lines : List String)
    (g : Gathering) (earlier : List Response)
    → all is_plain (responses loads lines) ≡ true
    → Gathered g earlier
    → Sums g (firsts earlier (responses loads lines)) (gather_lines loads content lines g)
unfolding gather_lines Sums
gather_lines-Sums loads content [] g earlier plain h =
    (sym (add_zero (usage_sum g.turns)), omega arith)
gather_lines-Sums loads content (line ∷ rest) g earlier plain h =
    gather_parsed-Sums loads content rest (response loads line) _ g earlier plain h
      (gather_lines-Sums loads content rest)

-- `iter_turns` counts what the hook's scan counts: the usage of its turns adds up to the totals of
-- `scan_transcript`, and there are as many turns as the scan has counted responses, in a transcript
-- that is read to its end and in which no identity has the form of an anonymous key.
pub iter_turns-scan_transcript :
    (loads : String → Option Entry) (content : String → Content) (lines : List String)
    → all is_plain (responses loads lines) ≡ true
    → let turns = iter_turns loads content (read_to_end lines) in
      let scan = scan_transcript loads (read_to_end lines) in
      (turn_sum turns ≡ scan.totals) × (length turns ≡ scan.counted)
unfolding iter_turns Sums
iter_turns-scan_transcript loads content lines plain =
    let g = gather_lines loads content lines nothing_gathered in
    let found = firsts [] (responses loads lines) in
    let s =
      gather_lines-Sums loads content lines nothing_gathered [] plain
        (record { named = λ i p. refl; fresh = λ n lt. refl }) in
    let scan = scan_transcript-firsts loads lines in
    (
      turn_sum-map g.turns ∙ (s.0 ∙ (zero_add (sum_usage found) ∙ sym scan.0)),
      omega (length-map g.turns, s.1, scan.1, arith),
    )
