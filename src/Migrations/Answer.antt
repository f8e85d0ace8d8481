-- ===== src/Migrations/Answer.antt =====
-- What `apply` has done to the database, by its answer.
use Prim.Native.Char.{Char}
use mathlib.Core.List.{append-nil}
use tokenweir.Prelude.{
  ℕ, String, Bool, true, false, ◌||◌, ◌≡◌, inl, inr, refl, ◌∙◌, sym, subst, Option, List, [], ◌∷◌,
  ◌++◌, arith, Bool-cases, is_empty,
}
use tokenweir.Python.{exception, base_exception}
use tokenweir.Migrations.Shipped.{Migration, FileEntry}
use tokenweir.Migrations.Database.{
  destructive, Ended, done, refused, failed, M, ended, Database, next,
}
use tokenweir.Migrations.Runner.{after_release, unlock, locked, with_lock}
use tokenweir.Migrations.Apply.{review, migrate_all, apply_locked, apply, offenders}
use tokenweir.Migrations.Laws.{Effect, Ready, Still, IsTransactional, RaisesExceptions}
use tokenweir.Migrations.Reading.{Calm, Calm-call, Calm-bind, pending-Calm}
use tokenweir.Migrations.Whole.{all_effects, Ran, migrate_all-Ran}

module _ {B : Type 0} (db : Database B) (durable open_ : B → List Effect)
    (law : IsTransactional db durable open_) (quiet : RaisesExceptions db durable open_)
    (sha256 : String → String) (is_word is_space : Char → Bool) (allow : Bool) where
  -- destructive statements are allowed, or there are none
  abbrev pub Permitted : List Migration → Type 0
  Permitted ms = (allow || is_empty (offenders is_word is_space ms)) ≡ true

  nothing-Permitted : Permitted []
  unfolding offenders
  nothing-Permitted = ground arith

  -- what `apply` has done to the database, by its answer
  abbrev pub Applies : B → Ended (List Migration) × B → Type 0
  Applies b (done applied, b') =
      (durable b' ≡ durable b ++ all_effects sha256 applied) × Permitted applied
  Applies b (refused r, b') = durable b' ≡ durable b
  Applies b (failed e, b') =
      (ms : List Migration) × (durable b' ≡ durable b ++ all_effects sha256 ms) × Permitted ms

  abbrev Ending : B → Ended (List Migration) × B → Type 0
  Ending b r = Ready db durable open_ r.1 × Applies b r

  answered :
      (b b₁ b' : B) (e : Ended (List Migration))
      → Ready db durable open_ b' × (durable b' ≡ durable b₁)
      → Applies b (e, b₁)
      → Ending b (e, b')
  answered b b₁ b' (done ms) s h = (s.0, (s.1 ∙ h.0, h.1))
  answered b b₁ b' (refused x) s h = (s.0, s.1 ∙ h)
  answered b b₁ b' (failed x) s h = (s.0, (h.0, s.1 ∙ h.1, h.2))

  Applies-shift :
      (b b₁ : B) (r : Ended (List Migration) × B)
      → durable b₁ ≡ durable b
      → Ending b₁ r
      → Ending b r
  Applies-shift b b₁ (done applied, b') d h = (h.0, (rw (← d) h.1.0, h.1.1))
  Applies-shift b b₁ (refused r, b') d h = (h.0, h.1 ∙ d)
  Applies-shift b b₁ (failed e, b') d h = (h.0, (h.1.0, rw (← d) h.1.1, h.1.2))

  first-Permitted : (first rest : List Migration) → Permitted (first ++ rest) → Permitted first
  unfolding offenders
  first-Permitted [] rest p = nothing-Permitted
  first-Permitted (m ∷ first) rest p = let rec = first-Permitted first rest in ground arith

  Ran-Ending :
      (b : B) (ms : List Migration) (r : Ended (List Migration) × B)
      → Permitted ms
      → Ran db durable open_ law quiet sha256 b ms r
      → Ending b r
  Ran-Ending b ms (done applied, b') p h = (h.0, (rw h.1 h.2, rw h.1 p))
  Ran-Ending b ms (refused r, b') p h = absurd h
  Ran-Ending b ms (failed e, b') p h =
      (h.2, (h.0, h.4, first-Permitted h.0 h.1 (subst Permitted h.3 p)))

  -- after an action without effects
  next-Ending :
      {A : Type 0} (b : B) (f : A → M B (List Migration)) (r : Ended A × B)
      → Still db durable open_ b r
      → ((a : A) (b₁ : B) → Ready db durable open_ b₁ → Ending b₁ (f a b₁))
      → Ending b (next f r)
  next-Ending b f (done a, b₁) h k = Applies-shift b b₁ (f a b₁) h.1 (k a b₁ h.0)
  next-Ending b f (refused r, b₁) h k = h
  next-Ending b f (failed e, b₁) h k = (h.0, ([], h.1 ∙ sym (append-nil _), nothing-Permitted))

  -- the release of the lock, whatever the block has done
  after_release-Ending :
      (b b₁ : B) (e : Ended (List Migration)) (r : Ended (Unit {0}) × B)
      → Still db durable open_ b₁ r
      → Applies b (e, b₁)
      → Ending b (after_release db e r)
  unfolding after_release
  after_release-Ending b b₁ e (done _, b') s h = answered b b₁ b' e s h
  after_release-Ending b b₁ e (refused r, b') s h = answered b b₁ b' e s h
  after_release-Ending b b₁ e (failed exception, b') s h = answered b b₁ b' e s h
  after_release-Ending b b₁ (done ms) (failed base_exception, b') s h = (s.0, (ms, s.1 ∙ h.0, h.1))
  after_release-Ending b b₁ (refused x) (failed base_exception, b') s h =
      (s.0, ([], s.1 ∙ h ∙ sym (append-nil _), nothing-Permitted))
  after_release-Ending b b₁ (failed x) (failed base_exception, b') s h =
      (s.0, (h.0, s.1 ∙ h.1, h.2))

  released :
      Calm db durable open_ law (λ b. next (λ _ b. ended (db.commit b)) (ended (db.release_lock b)))
  released =
      Calm-bind db durable open_ law _ _
        (Calm-call db durable open_ law db.release_lock law.release_lock)
        λ _. Calm-call db durable open_ law db.commit law.commit_empty

  unlock-Ending : (b : B) (r : Ended (List Migration) × B) → Ending b r → Ending b (unlock db r)
  unfolding unlock
  unlock-Ending b (e, b₁) h = after_release-Ending b b₁ e _ (released.still b₁ h.0) h.1

  -- An action that ends as `apply` may.
  record Answers (m : M B (List Migration)) : Type 0 where
    ending : (b : B) → Ready db durable open_ b → Ending b (m b)

  Answers-bind :
      {A : Type 0} (m : M B A) (f : A → M B (List Migration))
      → Calm db durable open_ law m
      → ((a : A) → Answers (f a))
      → Answers (λ b. next f (m b))
  Answers-bind m f p q = record {
    ending = λ b h. next-Ending b f (m b) (p.still b h) λ a b₁ h₁. (q a).ending b₁ h₁;
  }

  unlock-Answers : (body : M B (List Migration)) → Answers body → Answers (λ b. unlock db (body b))
  unlock-Answers body p = record { ending = λ b h. unlock-Ending b (body b) (p.ending b h) }

  locked-Answers : (body : M B (List Migration)) → Answers body → Answers (locked db body)
  unfolding locked
  locked-Answers body p =
      Answers-bind _ _ (Calm-call db durable open_ law db.acquire_lock law.acquire_lock) λ _.
        Answers-bind _ _ (Calm-call db durable open_ law db.commit law.commit_empty)
          λ _. unlock-Answers body p

  migrate_all-Answers :
      (role : Option String) (ms : List Migration)
      → Permitted ms
      → Answers (migrate_all db sha256 role ms)
  migrate_all-Answers role ms p = record {
    ending =
        λ b h. Ran-Ending b ms _ p (migrate_all-Ran db durable open_ law quiet sha256 role ms b h);
  }

  module _ (digit : Char → Option ℕ) (entries : List FileEntry) where
    review_permits :
        (ms : List Migration) (b : B)
        → Permitted ms
        → review is_word is_space allow ms b ≡ (done tt, b)
    unfolding review
    review_permits ms b p = ground arith

    review_refuses :
        (ms : List Migration) (b : B)
        → (allow || is_empty (offenders is_word is_space ms)) ≡ false
        → review is_word is_space allow ms b
          ≡ (refused (destructive (offenders is_word is_space ms)), b)
    unfolding review
    review_refuses ms b p = ground arith

    review-Answers :
        (role : Option String) (ms : List Migration)
        → Answers
            (λ b. next (λ _. migrate_all db sha256 role ms) (review is_word is_space allow ms b))
    review-Answers role ms = elim (Bool-cases (allow || is_empty (offenders is_word is_space ms))) [
      | inl p ↦
          let q = migrate_all-Answers role ms p in
          record { ending = λ b h. rw (review_permits ms b p) (q.ending b h) }
      | inr p ↦ record { ending = λ b h. rw (review_refuses ms b p) (h, refl) }
    ]

    apply_locked-Answers :
        (role : Option String) (verify : Bool)
        → Answers (apply_locked db sha256 digit is_word is_space entries role allow verify)
    unfolding apply_locked
    apply_locked-Answers role verify =
        Answers-bind _ _ (pending-Calm db durable open_ law digit sha256 entries verify)
          λ outstanding. review-Answers role outstanding

    with_lock-Answers :
        (lock : Bool) (body : M B (List Migration))
        → Answers body
        → Answers (with_lock db lock body)
    unfolding with_lock
    with_lock-Answers true body p = locked-Answers body p
    with_lock-Answers false body p = p

    -- `apply` leaves no migration half applied, whatever it answers: if it returns, the database has
    -- got the migrations that it returns, each with its row, in order; if it refuses, nothing; and if
    -- the driver raises, the migrations of some list, each wholly and with its row. None of them has
    -- a destructive statement unless that is allowed. The connection is transactional
    -- (`IsTransactional`) and starts without an open transaction, and no statement of a migration
    -- raises what is no `Exception`.
    pub apply-Applies :
        (role : Option String) (lock verify : Bool) (b : B)
        → open_ b ≡ []
        → Applies b (apply db sha256 digit is_word is_space entries role allow lock verify b)
    unfolding apply
    apply-Applies role lock verify b h = elim (Bool-cases (db.autocommit b)) [
      | inl e ↦ rw e refl
      | inr e ↦
          rw e (((with_lock-Answers lock _ (apply_locked-Answers role verify)).ending b (e, h)).1)
    ]
