-- ===== src/Postgres/Atomic.antt =====
-- A batch is written whole or not at all.
use tokenweir.Prelude.{
  String, true, false, ◌≡◌, ◌⊎◌, inl, inr, refl, ◌∙◌, ap, sym, Option, none, some, List, [], ◌∷◌,
  ◌++◌, length, lookup, Bool-cases,
}
use tokenweir.Python.{exception, base_exception, Outcome, returned, raised}
use tokenweir.Contract.Values.{Value, none_value, str}
use tokenweir.Contract.Record.{UsageRecord, Object, to_dict}
use tokenweir.Hook.Text.{strip, is_empty_text}
use tokenweir.Postgres.Rows.{Row, mapped, rows_for}
use tokenweir.Postgres.Write.{
  Connection, Answer, written, undone, committed, executed, write_rows, write,
}

-- What is relied on of a connection that is not in autocommit mode, for the rows that are durable and those of its open transaction:
-- a statement and a rollback leave what is durable, whatever they raise, and a commit makes the open
-- rows durable, unless it raises, when it may have done so or not.
pub record IsTransactional {B D : Type 0} (db : Connection B D) (durable pending : B → List (Row D))
    : Type 0 where
  pub execute_durable :
      (rows : List (Row D)) (b : B)
      → db.autocommit b ≡ false
      → durable (db.execute_many rows b).1 ≡ durable b
  pub execute_pending :
      (rows : List (Row D)) (b : B)
      → db.autocommit b ≡ false
      → (db.execute_many rows b).0 ≡ returned tt
      → pending (db.execute_many rows b).1 ≡ pending b ++ rows
  pub commit_returned :
      (b : B) → (db.commit b).0 ≡ returned tt → durable (db.commit b).1 ≡ durable b ++ pending b
  pub commit_raised :
      (b : B)
      → (durable (db.commit b).1 ≡ durable b) ⊎ (durable (db.commit b).1 ≡ durable b ++ pending b)
  pub rollback_durable : (b : B) → durable (db.rollback b).1 ≡ durable b

append_nil {ℓ} : {A : Type ℓ} (xs : List A) → xs ++ [] ≡ xs
append_nil [] = refl
append_nil (x ∷ xs) = rw (append_nil xs)

module _ {B D : Type 0} (db : Connection B D) (parse : String → Option D) (in_utc : D → D)
    (durable pending : B → List (Row D)) (law : IsTransactional db durable pending) where
  -- all of `rows` became durable or none did, and all did if a count was returned
  abbrev pub Whole : List (Row D) → List (Row D) → Answer × B → Type 0
  Whole old rows (written n, b) = (durable b ≡ old ++ rows) × (n ≡ length rows)
  Whole old rows (_, b) = (durable b ≡ old) ⊎ (durable b ≡ old ++ rows)

  undone-Whole :
      (old rows : List (Row D)) (r : Outcome (Unit {0}) × B)
      → (durable r.1 ≡ old) ⊎ (durable r.1 ≡ old ++ rows)
      → Whole old rows (undone db parse in_utc r)
  unfolding undone
  undone-Whole old rows (returned _, b) h = h
  undone-Whole old rows (raised e, b) h = h

  committed-Whole :
      (old rows : List (Row D)) (r : Outcome (Unit {0}) × B)
      → (r.0 ≡ returned tt → durable r.1 ≡ old ++ rows)
      → (durable r.1 ≡ old) ⊎ (durable r.1 ≡ old ++ rows)
      → Whole old rows (committed db parse in_utc (length rows) r)
  unfolding committed
  committed-Whole old rows (returned _, b) h k = (h refl, refl)
  committed-Whole old rows (raised exception, b) h k =
      undone-Whole old rows (db.rollback b) (rw (law.rollback_durable b) k)
  committed-Whole old rows (raised base_exception, b) h k = k

  commit_either :
      (rows : List (Row D)) (b b' : B)
      → durable b' ≡ durable b
      → pending b' ≡ rows
      → (durable (db.commit b').1 ≡ durable b) ⊎ (durable (db.commit b').1 ≡ durable b ++ rows)
  commit_either rows b b' h same = elim (law.commit_raised b') [
    | inl p ↦ inl (p ∙ h)
    | inr p ↦ inr (p ∙ cc (h, same))
  ]

  executed-Whole :
      (rows : List (Row D)) (b : B) (r : Outcome (Unit {0}) × B)
      → pending b ≡ []
      → durable r.1 ≡ durable b
      → (r.0 ≡ returned tt → pending r.1 ≡ pending b ++ rows)
      → Whole (durable b) rows (executed db parse in_utc (length rows) r)
  unfolding executed
  executed-Whole rows b (returned _, b') e h k =
      let same : pending b' ≡ rows = k refl ∙ ap (λ open_rows. open_rows ++ rows) e in
      committed-Whole (durable b) rows (db.commit b')
        (λ done. law.commit_returned b' done ∙ cc (h, same)) (commit_either rows b b' h same)
  executed-Whole rows b (raised exception, b') e h k =
      undone-Whole (durable b) rows (db.rollback b') (inl (law.rollback_durable b' ∙ h))
  executed-Whole rows b (raised base_exception, b') e h k = inl h

  write_rows-Whole :
      (rows : List (Row D)) (b : B)
      → db.autocommit b ≡ false
      → pending b ≡ []
      → Whole (durable b) rows (write_rows db parse in_utc (mapped rows) b)
  unfolding write_rows
  write_rows-Whole [] b a e = (sym (append_nil (durable b)), refl)
  write_rows-Whole (row ∷ rows) b a e =
      let all_rows = row ∷ rows in
      executed-Whole all_rows b (db.execute_many all_rows b) e (law.execute_durable all_rows b a)
        (law.execute_pending all_rows b a)

  -- On a connection without an open transaction, a call of `write` with records that all have rows
  -- makes all the rows durable and returns their number, or it does not return, and then all of them
  -- are durable or none is.
  pub write-Whole :
      (os : List Object) (rows : List (Row D)) (b : B)
      → rows_for parse in_utc os ≡ mapped rows
      → pending b ≡ []
      → Whole (durable b) rows (write db parse in_utc os b)
  unfolding write
  write-Whole os rows b h e = elim (Bool-cases (db.autocommit b)) [
    | inl a ↦ rw a (inl refl)
    | inr a ↦ rw (a, h) (write_rows-Whole rows b a e)
  ]

-- `to_dict()[name]`, where the name is there
abbrev pub value_of : UsageRecord → String → Option Value
value_of r name = lookup name (to_dict r)

-- The time of a row, by the value that `to_dict` has under "ts": none for `None` and for a blank text,
-- which the server stamps, and else the time that the text parses to, in UTC.
pub data IsStamp {D : Type 0} (parse : String → Option D) (in_utc : D → D)
    : Option Value → Option D → Type 0 where
  absent : IsStamp parse in_utc (some none_value) none
  blank :
      (raw : String) → is_empty_text (strip raw) ≡ true → IsStamp parse in_utc (some (str raw)) none
  timed :
      (raw : String) (time : D)
      → is_empty_text (strip raw) ≡ false
      → parse raw ≡ some time
      → IsStamp parse in_utc (some (str raw)) (some (in_utc time))
