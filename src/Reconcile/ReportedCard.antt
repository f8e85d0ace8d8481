-- ===== src/Reconcile/ReportedCard.antt =====
-- reconcile.py: `_rate_card_discrepancy` and what it reports.
use tokenweir.Prelude.{
  String, true, false, is_some, is_empty, ◌≡◌, refl, inl, inr, Option, none, some, List, [], ◌∷◌,
  str_eq, Bool-cases,
}
use tokenweir.Reconcile.Schema.{Relation, column}
use tokenweir.Reconcile.Report.{Discrepancy, is_manual, manual_resolution}
use tokenweir.Reconcile.Wording.Tables.{
  key_absent, duplicated_models, subscription_models, baseline_missing, key_holding_nulls,
  restructure,
}
use tokenweir.Reconcile.Connection.{
  Verdict, concluded, halted, broke, Act, ◌>>=◌, followed, conclude, Server,
}
use tokenweir.Reconcile.RateCard.{
  absent_key, rate_card_statements, restructured, after_unpriceable, after_duplicates, nullable_key,
  with_baseline, unpriceable_rows, rate_card_discrepancy,
}
use tokenweir.Reconcile.Laws.{IsTransactional}
use tokenweir.Reconcile.ReadOnly.{
  Reads, Reads-call, Reads-conclude, Reads-if, Reads-bind, Reads-select_where,
}
use tokenweir.Reconcile.Matching.{is_proper}

module _ {B : Type 0} (server : Server B) (durable open_ : B → List String)
    (law : IsTransactional server durable open_) where
  abbrev pub ProperAnswer : Verdict Discrepancy × B → Type 0
  ProperAnswer (concluded d, b) = is_proper d ≡ true
  ProperAnswer (halted h, b) = Unit
  ProperAnswer (broke e, b) = Unit

  -- An action that reads, and whose answer is proper.
  pub record Reports (m : Act B Discrepancy) : Type 0 where
    pub reading : Reads server durable open_ m
    pub reporting : (b : B) → ProperAnswer (m b)

  Reports-conclude : (d : Discrepancy) → is_proper d ≡ true → Reports (conclude d)
  Reports-conclude d h = record {
    reading = Reads-conclude server durable open_ _;
    reporting = λ b. h;
  }

  followed-ProperAnswer :
      {A : Type 0} (k : A → Act B Discrepancy) (r : Verdict A × B)
      → ((a : A) → Reports (k a))
      → ProperAnswer (followed k r)
  followed-ProperAnswer k (concluded a, b) p = (p a).reporting b
  followed-ProperAnswer k (halted h, b) p = tt
  followed-ProperAnswer k (broke e, b) p = tt

  Reports-bind :
      {A : Type 0} (m : Act B A) (k : A → Act B Discrepancy)
      → Reads server durable open_ m
      → ((a : A) → Reports (k a))
      → Reports (m >>= k)
  Reports-bind m k p q = record {
    reading = Reads-bind server durable open_ _ _ p λ a. (q a).reading;
    reporting = λ b. followed-ProperAnswer k (m b) q;
  }

  nullable_key-Reads :
      (relation : String) (key : List String)
      → Reads server durable open_ (nullable_key server relation key)
  unfolding nullable_key
  nullable_key-Reads relation key = Reads-select_where server durable open_ _ key λ name.
      Reads-if server durable open_ (str_eq name "effective_from") _ _
        (Reads-conclude server durable open_ false)
        (Reads-call server durable open_ _ (law.select_has_nulls relation name))

  restructured-Reports :
      (relation : String) (reference : Relation) (baseline : String) (nullable : List String)
      → Reports (restructured server relation reference baseline nullable)
  unfolding restructured key_holding_nulls restructure rate_card_statements is_proper is_manual
      manual_resolution
  restructured-Reports relation reference baseline [] =
      Reports-bind _ _ (Reads-call server durable open_ _ (law.select_key_name relation))
        λ key. Reports-conclude _ refl
  restructured-Reports relation reference baseline (n ∷ ns) = Reports-conclude _ refl

  with_baseline-Reports :
      (relation : String) (reference : Relation) (baseline : Option String)
      → Reports (with_baseline server relation reference baseline)
  unfolding with_baseline baseline_missing is_proper is_manual manual_resolution
  with_baseline-Reports relation reference none = Reports-conclude _ refl
  with_baseline-Reports relation reference (some baseline) =
      Reports-bind _ _ (nullable_key-Reads relation reference.primary_key)
        λ nullable. restructured-Reports relation reference baseline nullable

  after_unpriceable-Reports :
      (relation : String) (reference : Relation) (baseline : Option String) (l : List String)
      → Reports (after_unpriceable server relation reference baseline l)
  unfolding after_unpriceable subscription_models is_proper is_manual manual_resolution
  after_unpriceable-Reports relation reference baseline [] =
      with_baseline-Reports relation reference baseline
  after_unpriceable-Reports relation reference baseline (m ∷ ms) = Reports-conclude _ refl

  unpriceable_rows-Reads :
      (relation : String) (live : Relation)
      → Reads server durable open_ (unpriceable_rows server relation live)
  unfolding unpriceable_rows
  unpriceable_rows-Reads relation live =
      Reads-if server durable open_ (is_some (column live "pricing_mode")) _ _
        (Reads-call server durable open_ _ (law.select_unpriceable relation))
        (Reads-conclude server durable open_ [])

  after_duplicates-Reports :
      (relation : String) (reference live : Relation) (baseline : Option String) (l : List String)
      → Reports (after_duplicates server relation reference live baseline l)
  unfolding after_duplicates duplicated_models is_proper is_manual manual_resolution
  after_duplicates-Reports relation reference live baseline [] =
      Reports-bind _ _ (unpriceable_rows-Reads relation live)
        λ unpriceable. after_unpriceable-Reports relation reference baseline unpriceable
  after_duplicates-Reports relation reference live baseline (m ∷ ms) = Reports-conclude _ refl

  pub rate_card_discrepancy-Reports :
      (relation : String) (reference live : Relation) (baseline : Option String)
      → Reports (rate_card_discrepancy server relation reference live baseline)
  unfolding rate_card_discrepancy key_absent is_proper is_manual manual_resolution
  rate_card_discrepancy-Reports relation reference live baseline =
      elim (Bool-cases (is_empty (absent_key live reference.primary_key))) [
        | inr e ↦ rw e (Reports-conclude _ refl)
        | inl e ↦ rw e (
            Reports-bind _ _ (Reads-call server durable open_ _ (law.select_duplicates relation))
              λ duplicates. after_duplicates-Reports relation reference live baseline duplicates)
      ]
