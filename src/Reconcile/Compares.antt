-- ===== src/Reconcile/Compares.antt =====
-- What a comparison has to do: read only, report properly, and report nothing exactly if a test holds.
use tokenweir.Prelude.{
  String, Bool, true, false, ◌&&◌, is_empty, ◌≡◌, refl, List, [], ◌∷◌, ◌++◌, all, both,
  if◌then◌else◌, arith,
}
use tokenweir.Reconcile.Report.{Discrepancy, Observation}
use tokenweir.Reconcile.Connection.{
  Halt, Verdict, concluded, halted, broke, Act, ◌>>=◌, followed, conclude, halt, Server, Found,
  nothing_found, found_one, noticed, with_more, extended_by, for_each,
}
use tokenweir.Reconcile.Matching.{is_proper}
use tokenweir.Reconcile.ReadOnly.{Reads, Reads-conclude, Reads-halt, Reads-bind, Reads-extended_by}

all-append :
    (p : Discrepancy → Bool) (xs ys : List Discrepancy)
    → all p xs ≡ true
    → all p ys ≡ true
    → all p (xs ++ ys) ≡ true
all-append p [] ys h k = k
all-append p (x ∷ xs) ys h k = let rest = all-append p xs ys in ground arith

empty-append :
    (xs ys : List Discrepancy)
    → is_empty (xs ++ ys) ≡ true
    → (is_empty xs ≡ true) × (is_empty ys ≡ true)
empty-append [] ys h = (refl, h)
empty-append (x ∷ xs) ys h = absurd (ground arith)

module _ {B : Type 0} (server : Server B) (durable open_ : B → List String) where
  -- what is reported is proper, and nothing is reported only if the test holds
  abbrev pub Tells : Bool → Verdict Found × B → Type 0
  Tells t (concluded f, b) =
      (all is_proper f.discrepancies ≡ true) × (is_empty f.discrepancies ≡ true → t ≡ true)
  Tells t (halted h, b) = Unit
  Tells t (broke e, b) = Unit

  -- An action that compares, where the test says that there is no difference. It asks nothing then.
  pub record Compares (t : Bool) (m : Act B Found) : Type 0 where
    pub reading : Reads server durable open_ m
    pub telling : (b : B) → Tells t (m b)
    pub agreeing :
        t ≡ true → (b : B) → (f : Found) × (m b ≡ (concluded f, b)) × (f.discrepancies ≡ [])

  pub Compares-found :
      (d : Discrepancy) → is_proper d ≡ true → Compares false (conclude (found_one d))
  Compares-found d h = record {
    reading = Reads-conclude _ _ _ _;
    telling = λ b. (ground arith, λ e. ground arith);
    agreeing = λ e. absurd (ground arith);
  }

  pub Compares-nothing : Compares true (conclude nothing_found)
  Compares-nothing = record {
    reading = Reads-conclude _ _ _ _;
    telling = λ b. (refl, λ e. refl);
    agreeing = λ e b. (nothing_found, refl, refl);
  }

  pub Compares-noticed : (o : Observation) → Compares true (conclude (noticed o))
  Compares-noticed o = record {
    reading = Reads-conclude _ _ _ _;
    telling = λ b. (refl, λ e. refl);
    agreeing = λ e b. (noticed o, refl, refl);
  }

  pub Compares-halt : (h : Halt) → Compares false (halt h)
  Compares-halt h = record {
    reading = Reads-halt _ _ _ _;
    telling = λ b. tt;
    agreeing = λ e. absurd (ground arith);
  }

  followed-Tells :
      {A : Type 0} (t : Bool) (k : A → Act B Found) (r : Verdict A × B)
      → ((a : A) → Compares t (k a))
      → Tells t (followed k r)
  followed-Tells t k (concluded a, b) p = (p a).telling b
  followed-Tells t k (halted h, b) p = tt
  followed-Tells t k (broke e, b) p = tt

  -- a difference, whatever is asked first
  pub Compares-followed :
      {A : Type 0} (m : Act B A) (k : A → Act B Found)
      → Reads server durable open_ m
      → ((a : A) → Compares false (k a))
      → Compares false (m >>= k)
  Compares-followed m k p q = record {
    reading = Reads-bind _ _ _ _ _ p λ a. (q a).reading;
    telling = λ b. followed-Tells false k (m b) q;
    agreeing = λ e. absurd (ground arith);
  }

  pub Compares-if :
      (t p q : Bool) (m n : Act B Found)
      → Compares p m
      → Compares q n
      → Compares (if t then p else q) (if t then m else n)
  Compares-if true p q m n x y = x
  Compares-if false p q m n x y = y

  more-Tells :
      (p q : Bool) (f : Found) (r : Verdict Found × B)
      → all is_proper f.discrepancies ≡ true
      → (is_empty f.discrepancies ≡ true → p ≡ true)
      → Tells q r
      → Tells (p && q) (followed (λ g. conclude (with_more f g)) r)
  more-Tells p q f (concluded g, b) h k t = (
    all-append is_proper f.discrepancies g.discrepancies h t.0,
    λ e.
        let (x, y) = empty-append f.discrepancies g.discrepancies e in
        let kp = k x in let tq = t.1 y in ground arith,
  )
  more-Tells p q f (halted e, b) h k t = tt
  more-Tells p q f (broke e, b) h k t = tt

  extended_by-Tells :
      (p q : Bool) (n : Act B Found) (r : Verdict Found × B)
      → Tells p r
      → ((b : B) → Tells q (n b))
      → Tells (p && q) (followed (λ f. n >>= λ g. conclude (with_more f g)) r)
  extended_by-Tells p q n (concluded f, b) h k = more-Tells p q f (n b) h.0 h.1 (k b)
  extended_by-Tells p q n (halted e, b) h k = tt
  extended_by-Tells p q n (broke e, b) h k = tt

  pub Compares-extended_by :
      (p q : Bool) (m n : Act B Found)
      → Compares p m
      → Compares q n
      → Compares (p && q) (extended_by m n)
  unfolding extended_by
  Compares-extended_by p q m n x y = record {
    reading = Reads-extended_by _ _ _ _ _ x.reading y.reading;
    telling = λ b. extended_by-Tells p q n (m b) (x.telling b) y.telling;
    agreeing = λ e b.
        let (ep, eq) = both p q e in
        let (f, mf, df) = x.agreeing ep b in
        let (g, ng, dg) = y.agreeing eq b in (with_more f g, rw mf (rw ng refl), rw df dg);
  }

  pub Compares-for_each :
      {A : Type 0} (test : A → Bool) (body : A → Act B Found) (l : List A)
      → ((a : A) → Compares (test a) (body a))
      → Compares (all test l) (for_each body l)
  unfolding for_each
  Compares-for_each test body [] p = Compares-nothing
  Compares-for_each test body (a ∷ l) p =
      Compares-extended_by _ _ _ _ (p a) (Compares-for_each test body l p)
