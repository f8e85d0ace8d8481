-- ===== src/Reconcile/ReadOnly.antt =====
-- reconcile.py: the statements that planning sends, and what they do to the database.
use tokenweir.Prelude.{String, Bool, true, false, ◌≡◌, refl, ◌∙◌, List, [], ◌∷◌, if◌then◌else◌}
use tokenweir.Python.{Outcome, returned, raised}
use tokenweir.Reconcile.Connection.{
  Halt, Verdict, concluded, halted, broke, Act, ◌>>=◌, followed, conclude, halt, verdict, call,
  Server, Found, extended_by, for_each, select_where,
}
use tokenweir.Reconcile.Laws.{Unmoved}

module _ {B : Type 0} (server : Server B) (durable open_ : B → List String) where
  -- an action that changes nothing durable
  pub record Reads {A : Type 0} (m : Act B A) : Type 0 where
    pub ending : (b : B) → server.autocommit b ≡ false → Unmoved server durable open_ b (m b)

  pub Reads-conclude : {A : Type 0} (a : A) → Reads (conclude a)
  Reads-conclude a = record { ending = λ b h. (h, refl) }

  pub Reads-halt : {A : Type 0} (e : Halt) → Reads {A = A} (halt e)
  Reads-halt e = record { ending = λ b h. (h, refl) }

  verdict-Unmoved :
      {A : Type 0} (b : B) (r : Outcome A × B)
      → Unmoved server durable open_ b r
      → Unmoved server durable open_ b (verdict r)
  verdict-Unmoved b (returned a, b') h = h
  verdict-Unmoved b (raised e, b') h = h

  pub Reads-call :
      {A : Type 0} (f : B → Outcome A × B)
      → ((b : B) → server.autocommit b ≡ false → Unmoved server durable open_ b (f b))
      → Reads (call f)
  Reads-call f h = record { ending = λ b a. verdict-Unmoved b (f b) (h b a) }

  followed-Unmoved :
      {A C : Type 0} (b : B) (k : A → Act B C) (r : Verdict A × B)
      → Unmoved server durable open_ b r
      → ((a : A) → Reads (k a))
      → Unmoved server durable open_ b (followed k r)
  followed-Unmoved b k (concluded a, b₁) h p = let q = (p a).ending b₁ h.0 in (q.0, q.1 ∙ h.1)
  followed-Unmoved b k (halted e, b₁) h p = h
  followed-Unmoved b k (broke e, b₁) h p = h

  pub Reads-bind :
      {A C : Type 0} (m : Act B A) (k : A → Act B C)
      → Reads m
      → ((a : A) → Reads (k a))
      → Reads (m >>= k)
  Reads-bind m k p q = record { ending = λ b h. followed-Unmoved b k (m b) (p.ending b h) q }

  -- a query, and what follows it
  pub Reads-query :
      {A C : Type 0} (f : B → Outcome A × B) (k : A → Act B C)
      → ((b : B) → server.autocommit b ≡ false → Unmoved server durable open_ b (f b))
      → ((a : A) → Reads (k a))
      → Reads (call f >>= k)
  Reads-query f k h q = Reads-bind (call f) k (Reads-call f h) q

  pub Reads-if :
      {A : Type 0} (t : Bool) (m n : Act B A) → Reads m → Reads n → Reads (if t then m else n)
  Reads-if true m n p q = p
  Reads-if false m n p q = q

  pub Reads-extended_by : (m n : Act B Found) → Reads m → Reads n → Reads (extended_by m n)
  unfolding extended_by
  Reads-extended_by m n p q = Reads-bind _ _ p λ f. Reads-bind _ _ q λ g. Reads-conclude _

  pub Reads-for_each :
      {A : Type 0} (body : A → Act B Found) (l : List A)
      → ((a : A) → Reads (body a))
      → Reads (for_each body l)
  unfolding for_each
  Reads-for_each body [] p = Reads-conclude _
  Reads-for_each body (a ∷ l) p = Reads-extended_by _ _ (p a) (Reads-for_each body l p)

  pub Reads-select_where :
      {A : Type 0} (test : A → Act B Bool) (l : List A)
      → ((a : A) → Reads (test a))
      → Reads (select_where test l)
  unfolding select_where
  Reads-select_where test [] p = Reads-conclude _
  Reads-select_where test (a ∷ l) p =
      Reads-bind _ _ (p a)
        λ holds. Reads-bind _ _ (Reads-select_where test l p) λ others. Reads-conclude _
