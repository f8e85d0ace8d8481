-- ===== src/Migrations/Whole.antt =====
-- A migration is recorded exactly if it was run, and a refusal changes nothing.
use mathlib.Core.List.{append_assoc, append-nil}
use tokenweir.Prelude.{
  String, false, ◌≡◌, ◌≢◌, ◌⊎◌, inl, inr, refl, ◌∙◌, ap, sym, Option, none, some, List, [], ◌∷◌,
  ◌++◌,
}
use tokenweir.Python.{exception, base_exception, Outcome, returned, raised}
use tokenweir.Migrations.Shipped.{Migration}
use tokenweir.Migrations.Database.{Ended, done, refused, failed, M, ended, Database, next}
use tokenweir.Migrations.Apply.{undo, publish_role, transact, migrate_one, migrate_all}
use tokenweir.Migrations.Laws.{
  Effect, ran, recorded, Ready, Still, Extends, Commits, IsTransactional, RaisesExceptions,
}

abbrev pub effects_of : (String → String) → Migration → List Effect
effects_of sha256 m = ran m.sql ∷ recorded m.version m.label (sha256 m.sql) ∷ []

-- What the migrations do, each followed by its row.
abbrev pub all_effects : (String → String) → List Migration → List Effect
all_effects sha256 [] = []
all_effects sha256 (m ∷ ms) = effects_of sha256 m ++ all_effects sha256 ms

module _ {B : Type 0} (db : Database B) (durable open_ : B → List Effect)
    (law : IsTransactional db durable open_) (quiet : RaisesExceptions db durable open_)
    (sha256 : String → String) where
  -- in the transaction, with these effects, or behind what the driver raised
  abbrev InTransaction : B → List Effect → Ended (Unit {0}) × B → Type 0
  InTransaction b es (done _, b') =
      (db.autocommit b' ≡ false) × (durable b' ≡ durable b) × (open_ b' ≡ es)
  InTransaction b es (refused r, b') = ⊥
  InTransaction b es (failed exception, b') = (db.autocommit b' ≡ false) × (durable b' ≡ durable b)
  InTransaction b es (failed base_exception, b') = ⊥

  -- one migration: whole, or not at all
  abbrev One : B → List Effect → Ended (Unit {0}) × B → Type 0
  One b es (done _, b') = Ready db durable open_ b' × (durable b' ≡ durable b ++ es)
  One b es (refused r, b') = ⊥
  One b es (failed exception, b') =
      (db.autocommit b' ≡ false) × ((durable b' ≡ durable b) ⊎ (durable b' ≡ durable b ++ es))
  One b es (failed base_exception, b') = ⊥

  publish_role-InTransaction :
      (role : Option String) (b : B)
      → Ready db durable open_ b
      → InTransaction b [] (publish_role db sha256 role b)
  unfolding publish_role
  publish_role-InTransaction none b h = (h.0, refl, h.1)
  publish_role-InTransaction (some role) b h =
      of_outcome b (db.set_reader_role role b) (law.set_reader_role role b h)
        (quiet.set_reader_role role b)
    where
      of_outcome :
          (b : B) (r : Outcome (Unit {0}) × B)
          → Still db durable open_ b r
          → r.0 ≢ raised base_exception
          → InTransaction b [] (ended r)
      of_outcome b (returned _, b') s q = (s.0.0, s.1, s.0.1)
      of_outcome b (raised exception, b') s q = (s.0.0, s.1)
      of_outcome b (raised base_exception, b') s q = q refl

  -- a statement that follows
  extend :
      (b b₁ : B) (es : List Effect) (e : Effect) (r : Outcome (Unit {0}) × B)
      → durable b₁ ≡ durable b
      → open_ b₁ ≡ es
      → Extends db durable open_ b₁ e r
      → r.0 ≢ raised base_exception
      → InTransaction b (es ++ e ∷ []) (ended r)
  extend b b₁ es e (returned _, b') d o x q = (x.0, x.1 ∙ d, x.2 ∙ ap (λ l. l ++ e ∷ []) o)
  extend b b₁ es e (raised exception, b') d o x q = (x.0, x.1 ∙ d)
  extend b b₁ es e (raised base_exception, b') d o x q = q refl

  commit_all :
      (b b₁ : B) (es : List Effect) (r : Outcome (Unit {0}) × B)
      → durable b₁ ≡ durable b
      → open_ b₁ ≡ es
      → Commits db durable open_ b₁ r
      → r.0 ≢ raised base_exception
      → One b es (ended r)
  commit_all b b₁ es (returned _, b') d o x q = ((x.0, x.2), x.1 ∙ cc (d, o))
  commit_all b b₁ es (raised exception, b') d o x q =
      (x.0, elim x.1 [ inl p ↦ inl (p ∙ d) | inr p ↦ inr (p ∙ cc (d, o)) ])
  commit_all b b₁ es (raised base_exception, b') d o x q = q refl

  -- rules for what follows in the transaction
  then_extend :
      (b : B) (es fs : List Effect) (r : Ended (Unit {0}) × B) (f : Unit {0} → M B (Unit {0}))
      → InTransaction b es r
      → ((b₁ : B)
          → db.autocommit b₁ ≡ false
          → durable b₁ ≡ durable b
          → open_ b₁ ≡ es
          → One b fs (f tt b₁))
      → One b fs (next f r)
  then_extend b es fs (done _, b₁) f h k = k b₁ h.0 h.1 h.2
  then_extend b es fs (refused r, b₁) f h k = h
  then_extend b es fs (failed exception, b₁) f h k = (h.0, inl h.1)
  then_extend b es fs (failed base_exception, b₁) f h k = h

  transact-One :
      (role : Option String) (m : Migration) (b : B)
      → Ready db durable open_ b
      → One b (effects_of sha256 m) (transact db sha256 role m b)
  unfolding transact
  transact-One role m b h =
      then_extend b [] _ _ _ (publish_role-InTransaction role b h) λ b₁ a₁ d₁ o₁.
        then_extend b _ _ _ _
          (extend b b₁ [] _ _ d₁ o₁ (law.execute m.sql b₁ a₁) (quiet.execute m.sql b₁))
          λ b₂ a₂ d₂ o₂.
            then_extend b _ _ _ _
              (extend b b₂ _ _ _ d₂ o₂ (law.insert_version m.version m.label (sha256 m.sql) b₂ a₂)
                (quiet.insert_version m.version m.label (sha256 m.sql) b₂))
              λ b₃ a₃ d₃ o₃. commit_all b b₃ _ _ d₃ o₃ (law.commit b₃ a₃) (quiet.commit b₃)

  -- one migration behind the handler: no transaction is left open
  abbrev Settled : B → List Effect → Ended (Unit {0}) × B → Type 0
  Settled b es (done _, b') = Ready db durable open_ b' × (durable b' ≡ durable b ++ es)
  Settled b es (refused r, b') = ⊥
  Settled b es (failed _, b') =
      Ready db durable open_ b' × ((durable b' ≡ durable b) ⊎ (durable b' ≡ durable b ++ es))

  rolled_back :
      (b b₁ : B) (es : List Effect) (r : Outcome (Unit {0}) × B)
      → (durable b₁ ≡ durable b) ⊎ (durable b₁ ≡ durable b ++ es)
      → Still db durable open_ b₁ r
      → Settled b es (next (λ _ b. (failed exception, b)) (ended r))
  rolled_back b b₁ es (returned _, b') h s = (s.0, rw s.1 h)
  rolled_back b b₁ es (raised e, b') h s = (s.0, rw s.1 h)

  undo-Settled :
      (b : B) (es : List Effect) (r : Ended (Unit {0}) × B)
      → One b es r
      → Settled b es (undo db sha256 r)
  unfolding undo
  undo-Settled b es (done _, b') h = h
  undo-Settled b es (refused r, b') h = absurd h
  undo-Settled b es (failed exception, b') h =
      rolled_back b b' es (db.rollback b') h.1 (law.rollback b' h.0)
  undo-Settled b es (failed base_exception, b') h = absurd h

  -- The loop over the migrations: all of them, or the first of them.
  abbrev pub Ran : B → List Migration → Ended (List Migration) × B → Type 0
  Ran b ms (done applied, b') =
      Ready db durable open_ b' × (applied ≡ ms) × (durable b' ≡ durable b ++ all_effects sha256 ms)
  Ran b ms (refused r, b') = ⊥
  Ran b ms (failed e, b') =
      (first rest : List Migration) × Ready db durable open_ b'
      × (ms ≡ first ++ rest)
      × (durable b' ≡ durable b ++ all_effects sha256 first)

  longer :
      (b b₁ b' : B) (m : Migration) (ms : List Migration)
      → durable b₁ ≡ durable b ++ effects_of sha256 m
      → durable b' ≡ durable b₁ ++ all_effects sha256 ms
      → durable b' ≡ durable b ++ all_effects sha256 (m ∷ ms)
  longer b b₁ b' m ms d e =
      e
      ∙ (ap (λ l. l ++ all_effects sha256 ms) d
          ∙ append_assoc (durable b) (effects_of sha256 m) (all_effects sha256 ms))

  collect :
      (b b₁ : B) (m : Migration) (ms : List Migration) (r : Ended (List Migration) × B)
      → durable b₁ ≡ durable b ++ effects_of sha256 m
      → Ran b₁ ms r
      → Ran b (m ∷ ms) (next (λ applied b. (done (m ∷ applied), b)) r)
  collect b b₁ m ms (done applied, b') d h = (h.0, ap (λ l. m ∷ l) h.1, longer b b₁ b' m ms d h.2)
  collect b b₁ m ms (refused r, b') d h = h
  collect b b₁ m ms (failed e, b') d h =
      (m ∷ h.0, h.1, h.2, ap (λ l. m ∷ l) h.3, longer b b₁ b' m h.0 d h.4)

  migrated :
      (role : Option String) (b : B) (m : Migration) (ms : List Migration)
      (r : Ended (Unit {0}) × B)
      → Settled b (effects_of sha256 m) r
      → ((b₁ : B) → Ready db durable open_ b₁ → Ran b₁ ms (migrate_all db sha256 role ms b₁))
      → Ran b (m ∷ ms) (
          next
            (λ _ b. next (λ applied b. (done (m ∷ applied), b)) (migrate_all db sha256 role ms b))
            r)
  migrated role b m ms (done _, b₁) h rec = collect b b₁ m ms _ h.1 (rec b₁ h.0)
  migrated role b m ms (refused r, b₁) h rec = absurd h
  migrated role b m ms (failed e, b₁) h rec = elim h.1 [
    | inl p ↦ ([], m ∷ ms, h.0, refl, p ∙ sym (append-nil _))
    | inr p ↦ (m ∷ [], ms, h.0, refl, longer b b₁ b₁ m [] p (sym (append-nil _)))
  ]

  -- `apply` runs the outstanding migrations in their order, each in a transaction with its row: if
  -- the loop returns, it has run them all, and if the driver raises an `Exception`, it has run the
  -- first of them, each wholly and with its row. The connection is transactional and has no open
  -- transaction at the start, and no statement raises what is no `Exception`.
  pub migrate_all-Ran :
      (role : Option String) (ms : List Migration) (b : B)
      → Ready db durable open_ b
      → Ran b ms (migrate_all db sha256 role ms b)
  unfolding migrate_all migrate_one
  migrate_all-Ran role [] b h = (h, refl, sym (append-nil _))
  migrate_all-Ran role (m ∷ ms) b h =
      migrated role b m ms (migrate_one db sha256 role m b)
        (undo-Settled b _ _ (transact-One role m b h)) (migrate_all-Ran role ms)
