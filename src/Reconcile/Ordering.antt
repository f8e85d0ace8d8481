-- ===== src/Reconcile/Ordering.antt =====
-- reconcile.py: `_ordered`, the order in which the relations are compared.
use Prim.Native.Char.{code}
use Prim.Native.Nat.{Ordering, compare as compare_ℕ}
use Prim.Native.String as T
use Prim.Native.String.compare as S
use mathlib.Core.List.{Perm, perm_middle}
use mathlib.Core.List.Perm
use tokenweir.Prelude.{
  ℕ, String, Bool, true, false, ◌&&◌, not, ◌≡◌, refl, ◌∙◌, sym, ap, inl, inr, List, [], ◌∷◌, ◌++◌,
  all, Bool-cases, if◌then◌else◌, arith,
}
use tokenweir.Reconcile.Schema.{Relation, Snapshot}
use tokenweir.Reconcile.Catalog.{
  text_leq, insert_by, sorted_by, name_leq, is_table, tables_of, views_of, ordered,
}

abbrev is_leq : Ordering → Bool
is_leq Ordering.gt = false
is_leq Ordering.lt = true
is_leq Ordering.eq = true

text_leq-compare : (a b : String) → text_leq a b ≡ is_leq (T.compare a b)
unfolding text_leq
text_leq-compare a b = of_answer (T.compare a b)
  where
    of_answer : (o : Ordering) → (elim o [ Ordering.gt ↦ false | _ ↦ true ]) ≡ is_leq o
    of_answer Ordering.gt = refl
    of_answer Ordering.lt = refl
    of_answer Ordering.eq = refl

then_total :
    (m n : ℕ) (o p : Ordering)
    → (is_leq o ≡ false → is_leq p ≡ true)
    → is_leq (T.then (compare_ℕ m n) o) ≡ false
    → is_leq (T.then (compare_ℕ n m) p) ≡ true
then_total m n o p h e = ground arith

compare_total : (a b : String) → is_leq (T.compare a b) ≡ false → is_leq (T.compare b a) ≡ true
compare_total T.[] T.[] h = refl
compare_total T.[] (T.◌∷◌ d t) h = let e = ap is_leq (S.nil-cons d t) in absurd (ground arith)
compare_total (T.◌∷◌ c s) T.[] h = rw (S.nil-cons c s) refl
compare_total (T.◌∷◌ c s) (T.◌∷◌ d t) h =
    rw (S.cons-cons d c t s)
      (then_total (code c) (code d) _ _ (compare_total s t) (rw (← S.cons-cons c d s t) h))

text_leq_total : (a b : String) → text_leq a b ≡ false → text_leq b a ≡ true
text_leq_total a b h = text_leq-compare b a ∙ compare_total a b (sym (text_leq-compare a b) ∙ h)

-- neighbours are in the order of a test
abbrev pub chain : {A : Type 0} → (A → A → Bool) → List A → Bool
chain leq [] = true
chain leq (a ∷ []) = true
chain leq (a ∷ b ∷ rest) = leq a b && chain leq (b ∷ rest)

-- Sorting: a permutation, in order.
module _ {A : Type 0} (leq : A → A → Bool)
    (total : (a b : A) → leq a b ≡ false → leq b a ≡ true) where
  insert_by-Perm : (a : A) (l : List A) → Perm (insert_by leq a l) (a ∷ l)
  unfolding insert_by
  insert_by-Perm a [] = Perm.refl (a ∷ [])
  insert_by-Perm a (b ∷ l) = elim (Bool-cases (leq a b)) [
    | inl e ↦ rw e (Perm.refl (a ∷ b ∷ l))
    | inr e ↦ rw e (Perm.trans (Perm.cons b (insert_by-Perm a l)) (Perm.swap a b l))
  ]

  sorted_by-Perm : (l : List A) → Perm (sorted_by leq l) l
  unfolding sorted_by
  sorted_by-Perm [] = Perm.refl []
  sorted_by-Perm (a ∷ l) =
      Perm.trans (insert_by-Perm a (sorted_by leq l)) (Perm.cons a (sorted_by-Perm l))

  chain-insert_by : (a : A) (l : List A) → chain leq l ≡ true → chain leq (insert_by leq a l) ≡ true
  unfolding insert_by
  chain-insert_by a [] h = refl
  chain-insert_by a (b ∷ []) h = elim (Bool-cases (leq a b)) [
    | inl e ↦ rw e (rw e refl)
    | inr e ↦ rw e (rw (total a b e) refl)
  ]
  chain-insert_by a (b ∷ c ∷ l) h =
      let rec = chain-insert_by a (c ∷ l) in
      let back = total a b in
      elim (Bool-cases (leq a b)) [
        | inl e ↦ rw e (rw e h)
        | inr e ↦ elim (Bool-cases (leq a c)) [
          | inl f ↦ rw e (rw f (ground arith))
          | inr f ↦ rw e (rw f (ground arith))
        ]
      ]

  chain-sorted_by : (l : List A) → chain leq (sorted_by leq l) ≡ true
  unfolding sorted_by
  chain-sorted_by [] = refl
  chain-sorted_by (a ∷ l) = chain-insert_by a (sorted_by leq l) (chain-sorted_by l)

  all-insert_by : (p : A → Bool) (a : A) (l : List A) → all p (insert_by leq a l) ≡ (p a && all p l)
  unfolding insert_by
  all-insert_by p a [] = refl
  all-insert_by p a (b ∷ l) = let rec = all-insert_by p a l in ground arith

  all-sorted_by : (p : A → Bool) (l : List A) → all p (sorted_by leq l) ≡ all p l
  unfolding sorted_by
  all-sorted_by p [] = refl
  all-sorted_by p (a ∷ l) =
      all-insert_by p a (sorted_by leq l) ∙ ap (λ t. p a && t) (all-sorted_by p l)

name_leq_total : (r s : Relation) → name_leq r s ≡ false → name_leq s r ≡ true
unfolding name_leq
name_leq_total r s h = text_leq_total r.name s.name h

abbrev sorted_tables : List Relation → List Relation
sorted_tables rs = sorted_by name_leq (tables_of rs)

abbrev sorted_views : List Relation → List Relation
sorted_views rs = sorted_by name_leq (views_of rs)

all-tables_of : (rs : List Relation) → all is_table (tables_of rs) ≡ true
unfolding tables_of
all-tables_of [] = refl
all-tables_of (r ∷ rs) = let rec = all-tables_of rs in ground arith

all-views_of : (rs : List Relation) → all (λ r. not (is_table r)) (views_of rs) ≡ true
unfolding views_of
all-views_of [] = refl
all-views_of (r ∷ rs) = let rec = all-views_of rs in ground arith

-- tables before views, and each by name
unfoldable pub in_order : Relation → Relation → Bool
in_order r s =
    if is_table r
    then (if is_table s then name_leq r s else true)
    else (if is_table s then false else name_leq r s)

chain-views :
    (l : List Relation)
    → all (λ r. not (is_table r)) l ≡ true
    → chain name_leq l ≡ true
    → chain in_order l ≡ true
unfolding in_order
chain-views [] a c = refl
chain-views (r ∷ []) a c = refl
chain-views (r ∷ s ∷ l) a c = let rec = chain-views (s ∷ l) in ground arith

chain-append :
    (l m : List Relation)
    → all is_table l ≡ true
    → all (λ r. not (is_table r)) m ≡ true
    → chain name_leq l ≡ true
    → chain in_order m ≡ true
    → chain in_order (l ++ m) ≡ true
unfolding in_order
chain-append [] m a b c d = d
chain-append (r ∷ []) [] a b c d = refl
chain-append (r ∷ []) (s ∷ m) a b c d = ground arith
chain-append (r ∷ s ∷ l) m a b c d = let rec = chain-append (s ∷ l) m in ground arith

partition-Perm : (rs : List Relation) → Perm (tables_of rs ++ views_of rs) rs
unfolding tables_of views_of
partition-Perm [] = Perm.refl []
partition-Perm (r ∷ rs) = elim (Bool-cases (is_table r)) [
  | inl e ↦ rw e (Perm.cons r (partition-Perm rs))
  | inr e ↦
      rw e (Perm.trans (perm_middle (tables_of rs) (views_of rs)) (Perm.cons r (partition-Perm rs)))
]

sorted_tables-all : (rs : List Relation) → all is_table (sorted_tables rs) ≡ true
sorted_tables-all rs =
    all-sorted_by name_leq name_leq_total is_table (tables_of rs) ∙ all-tables_of rs

sorted_views-all : (rs : List Relation) → all (λ r. not (is_table r)) (sorted_views rs) ≡ true
sorted_views-all rs =
    all-sorted_by name_leq name_leq_total (λ r. not (is_table r)) (views_of rs) ∙ all-views_of rs

-- The order in which relations are reconciled: every relation of the snapshot once, the tables
-- before the views, and each of the two by name.
pub ordered-Perm :
    (s : Snapshot) → Perm (ordered s) s.relations × (chain in_order (ordered s) ≡ true)
unfolding ordered
ordered-Perm s = (
  Perm.trans
      (Perm.append (sorted_by-Perm name_leq name_leq_total (tables_of s.relations))
        (sorted_by-Perm name_leq name_leq_total (views_of s.relations)))
      (partition-Perm s.relations),
  chain-append (sorted_tables s.relations) (sorted_views s.relations)
      (sorted_tables-all s.relations) (sorted_views-all s.relations)
      (chain-sorted_by name_leq name_leq_total (tables_of s.relations))
      (chain-views (sorted_views s.relations) (sorted_views-all s.relations)
        (chain-sorted_by name_leq name_leq_total (views_of s.relations))),
)

all-split :
    (p : Relation → Bool) (xs ys : List Relation) → all p (xs ++ ys) ≡ (all p xs && all p ys)
all-split p [] ys = refl
all-split p (x ∷ xs) ys = let rec = all-split p xs ys in ground arith

all-partition :
    (p : Relation → Bool) (rs : List Relation)
    → (all p (tables_of rs) && all p (views_of rs)) ≡ all p rs
unfolding tables_of views_of
all-partition p [] = refl
all-partition p (r ∷ rs) = let rec = all-partition p rs in ground arith

-- a test of every relation, in whatever order
pub all-ordered : (p : Relation → Bool) (s : Snapshot) → all p (ordered s) ≡ all p s.relations
unfolding ordered
all-ordered p s =
    let tables = all-sorted_by name_leq name_leq_total p (tables_of s.relations) in
    let views = all-sorted_by name_leq name_leq_total p (views_of s.relations) in
    all-split p (sorted_tables s.relations) (sorted_views s.relations)
    ∙ rw tables (rw views (all-partition p s.relations))
