-- ===== src/Sink/Guarded.antt =====
-- The guarded calls never raise what a guard can catch, and add nothing to a record that is valid.
use tokenweir.Prelude.{
  String, ap, ◌∙◌, ◌≡◌, ◌≢◌, refl, ◌⊎◌, inl, inr, Option, none, some, List, [], ◌∷◌, Dict, arith,
  insert,
}
use tokenweir.Python.{exception, base_exception, Outcome, returned, raised}
use tokenweir.Contract.Values.{Value, type_error, Result, ok, err, ◌>>=◌}
use tokenweir.Contract.Record.{UsageRecord, Object, construct}
use tokenweir.Contract.Wire.{Key, name, other_key, Payload, mapping, not_mapping, items}
use tokenweir.Contract.Shape.{IsValid, construct-IsValid}
use tokenweir.Sink.Guard.{
  Emit, Drop, construction_failed, emission_failed, put, update, keywords, or_drop, merged,
  build_record, emitted, emit_record, answered, emit_built, emit_usage,
}

-- the fields with the overrides written over them, in order
abbrev pub overlaid : Dict Value → Dict Value → Dict Value
overlaid d [] = d
overlaid d ((k, v) ∷ overrides) = overlaid (insert k v d) overrides

put-items : (k : String) (v : Value) (d : Dict Value) → put k v (items d) ≡ items (insert k v d)
unfolding put insert
put-items k v [] = refl
put-items k v ((j, w) ∷ d) = ground (arith, put-items k v d)

update-items : (d o : Dict Value) → update (items d) o ≡ items (overlaid d o)
unfolding update
update-items d [] = refl
update-items d ((k, v) ∷ o) = rw (put-items k v d) (update-items (insert k v d) o)

keywords-items : (d : Dict Value) → keywords (items d) ≡ ok d
unfolding keywords
keywords-items [] = refl
keywords-items ((k, v) ∷ d) = rw (keywords-items d)

-- The fields that are given, if they are a mapping whose keys are all strings.
abbrev pub with_item : String → Value → Option (Dict Value) → Option (Dict Value)
with_item k v none = none
with_item k v (some d) = some ((k, v) ∷ d)

abbrev pub text_items : List (Key × Value) → Option (Dict Value)
text_items [] = some []
text_items ((name k, v) ∷ m) = with_item k v (text_items m)
text_items ((other_key, v) ∷ m) = none

abbrev pub given_fields : Option Payload → Option (Dict Value)
given_fields none = some []
given_fields (some (mapping m)) = text_items m
given_fields (some not_mapping) = none

-- a record for a construction that succeeds, and one line for one that fails
abbrev pub Guarded : Result UsageRecord → Option UsageRecord × List Drop → Type 0
Guarded (ok r) answer = answer ≡ (some r, [])
Guarded (err e) answer = answer ≡ (none, construction_failed ∷ [])

-- for fields that have been given, the construction from them with the overrides written over them
abbrev pub GuardedOver : Option (Dict Value) → Dict Value → Option UsageRecord × List Drop → Type 0
GuardedOver none o answer = answer ≡ (none, construction_failed ∷ [])
GuardedOver (some d) o answer = Guarded (construct (overlaid d o)) answer

or_drop-Guarded : (m : Result UsageRecord) → Guarded m (or_drop m)
unfolding or_drop
or_drop-Guarded (ok r) = refl
or_drop-Guarded (err e) = refl

with_item-some :
    (k : String) (v : Value) (given : Option (Dict Value)) (d : Dict Value)
    → with_item k v given ≡ some d
    → (d' : Dict Value) × (given ≡ some d') × ((k, v) ∷ d' ≡ d)
with_item-some k v none d h = cc
with_item-some k v (some d') d h = (d', refl, ground arith)

with_item-none :
    (k : String) (v : Value) (given : Option (Dict Value))
    → with_item k v given ≡ none
    → given ≡ none
with_item-none k v none h = refl
with_item-none k v (some d) h = cc

text_items-some : (m : List (Key × Value)) (d : Dict Value) → text_items m ≡ some d → m ≡ items d
text_items-some [] d h = let e : [] ≡ d = ground arith in ap items e
text_items-some ((name k, v) ∷ m) d h =
    let (d', e, same) = with_item-some k v (text_items m) d h in
    ap (λ l. (name k, v) ∷ l) (text_items-some m d' e) ∙ ap items same
text_items-some ((other_key, v) ∷ m) d h = cc

text_items-put :
    (k : String) (v : Value) (m : List (Key × Value))
    → text_items m ≡ none
    → text_items (put k v m) ≡ none
unfolding put
text_items-put k v [] h = cc
text_items-put k v ((name j, w) ∷ m) h = ground (
  arith,
  with_item-none j w (text_items m) h,
  text_items-put k v m (with_item-none j w (text_items m) h),
)
text_items-put k v ((other_key, w) ∷ m) h = refl

text_items-update :
    (m : List (Key × Value)) (o : Dict Value) → text_items m ≡ none → text_items (update m o) ≡ none
unfolding update
text_items-update m [] h = h
text_items-update m ((k, v) ∷ o) h = text_items-update (put k v m) o (text_items-put k v m h)

keywords-none : (m : List (Key × Value)) → text_items m ≡ none → keywords m ≡ err type_error
unfolding keywords
keywords-none [] h = cc
keywords-none ((name k, v) ∷ m) h = rw (keywords-none m (with_item-none k v (text_items m) h)) refl
keywords-none ((other_key, v) ∷ m) h = refl

build_record-mapping :
    (m : List (Key × Value)) (o : Dict Value) (given : Option (Dict Value))
    → text_items m ≡ given
    → GuardedOver given o (build_record (some (mapping m)) o)
unfolding build_record merged or_drop
build_record-mapping m o none h = rw (keywords-none (update m o) (text_items-update m o h)) refl
build_record-mapping m o (some d) h = rw (text_items-some m d h) (
    rw (update-items d o)
      (rw (keywords-items (overlaid d o)) (or_drop-Guarded (construct (overlaid d o)))))

-- with no overrides
pub build_record-items :
    (d : Dict Value) → build_record (some (mapping (items d))) [] ≡ or_drop (construct d)
unfolding build_record merged update
build_record-items d = rw (keywords-items d)

-- `build_record` is the direct construction, under a guard. For fields that are a mapping whose keys are
-- all strings, or none, it answers with the record that is constructed from them with the overrides
-- written over them, in order, and with no line in the log, if that construction succeeds: no field is
-- changed, added or defaulted by the guard. If it fails, or if the fields are anything else, the
-- answer is `None`, with the one line that says that the construction failed.
pub build_record-construct :
    (f : Option Payload) (o : Dict Value) → GuardedOver (given_fields f) o (build_record f o)
unfolding build_record merged or_drop
build_record-construct none o =
    rw (update-items [] o)
      (rw (keywords-items (overlaid [] o)) (or_drop-Guarded (construct (overlaid [] o))))
build_record-construct (some (mapping m)) o = build_record-mapping m o (text_items m) refl
build_record-construct (some not_mapping) o = refl

-- What `build_record` may answer: a valid record and no line in the log, or no record and one line.
pub data Answer : Option UsageRecord × List Drop → Type 0 where
  built : (r : UsageRecord) → IsValid r → Answer (some r, [])
  dropped : Answer (none, construction_failed ∷ [])

or_drop-Answer :
    (m : Result UsageRecord) → ((r : UsageRecord) → m ≡ ok r → IsValid r) → Answer (or_drop m)
unfolding or_drop
or_drop-Answer (ok r) h = built r (h r refl)
or_drop-Answer (err e) h = dropped

IsValid-bind {ℓ} :
    {A : Type ℓ} (m : Result A) (f : A → Result UsageRecord) (r : UsageRecord)
    → ((a : A) → f a ≡ ok r → IsValid r)
    → (m >>= f) ≡ ok r
    → IsValid r
IsValid-bind (ok a) f r h e = h a e
IsValid-bind (err x) f r h e = cc

-- Whatever it is given, `build_record` returns: a valid record with nothing logged, or `None` with
-- exactly one line that says that the construction failed.
pub build_record-Answer : (f : Option Payload) (o : Dict Value) → Answer (build_record f o)
unfolding build_record
build_record-Answer f o = or_drop-Answer (merged f o >>= λ m. keywords m >>= construct) λ r e.
    IsValid-bind (merged f o) (λ m. keywords m >>= construct) r
      (λ m e'. IsValid-bind (keywords m) construct r (λ kwargs. construct-IsValid kwargs r) e') e

module _ {S : Type 0} (emit : Emit S) where
  emit_record-raised : (x : Object) (s : S) → (emit_record emit x s).0 ≢ raised exception
  unfolding emit_record
  emit_record-raised x s e = ground arith

  -- `emit_usage` never raises an exception that `except Exception` can catch, whatever fields it is
  -- given and whatever the sink does.
  pub emit_usage-raised :
      (f : Option Payload) (o : Dict Value) (s : S) → (emit_usage emit f o s).0 ≢ raised exception
  unfolding emit_usage emit_built
  emit_usage-raised f o s e = ground arith

  -- What a sink does with what was built: nothing for `None`, one call of `emit` for a record.
  abbrev pub after_build : Option UsageRecord → S → S
  after_build none s = s
  after_build (some r) s = (emit r s).1

  -- The lines that may stand in the log beside an answer: none beside a record, one beside `None`.
  abbrev pub Logged : Outcome (Option UsageRecord) → List Drop → Type 0
  Logged (returned (some r)) log = log ≡ []
  Logged (returned none) log = (log ≡ construction_failed ∷ []) ⊎ (log ≡ emission_failed ∷ [])
  Logged (raised e) log = log ≡ []

  answered-effect :
      (r : UsageRecord) (c : Outcome (Unit {0}) × S)
      → ((answered emit r (emitted emit c)).1 ≡ c.1)
        × Logged (answered emit r (emitted emit c)).0 (answered emit r (emitted emit c)).2
  unfolding answered emitted
  answered-effect r (returned _, s) = (refl, refl)
  answered-effect r (raised exception, s) = (refl, inr refl)
  answered-effect r (raised base_exception, s) = (refl, refl)

  emit_built-effect :
      (b : Option UsageRecord × List Drop) (s : S)
      → Answer b
      → ((emit_built emit b s).1 ≡ after_build b.0 s)
        × Logged (emit_built emit b s).0 (emit_built emit b s).2
  unfolding emit_built
  emit_built-effect b s (built r v) = answered-effect r (emit r s)
  emit_built-effect b s dropped = (refl, inl refl)

  -- `emit_usage` calls the sink exactly once if a record was built, with that record, and not at
  -- all otherwise; it logs one line if it answers `None`, and none if it answers a record or lets
  -- an exception pass.
  pub emit_usage-effect :
      (f : Option Payload) (o : Dict Value) (s : S)
      → ((emit_usage emit f o s).1 ≡ after_build (build_record f o).0 s)
        × Logged (emit_usage emit f o s).0 (emit_usage emit f o s).2
  unfolding emit_usage
  emit_usage-effect f o s = emit_built-effect (build_record f o) s (build_record-Answer f o)
