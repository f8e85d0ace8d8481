-- ===== src/Contract/Lookup.antt =====
-- What `from_dict` makes of a payload, key by key.
use tokenweir.Prelude.{
  String, true, ◌≡◌, refl, Option, some, List, [], ◌∷◌, Dict, arith, lookup, insert, contains, all,
  str_eq, eq_iff, lookup-insert, if◌then◌else◌,
}
use tokenweir.Python.{whole}
use tokenweir.Contract.Values.{Value, int, float}
use tokenweir.Contract.Record.{is_known, keys_known, has_key}
use tokenweir.Contract.Wire.{
  Key, name, other_key, items, known_items, store_integer, coerce_wire_integer,
  coerce_wire_integers,
}

-- `_coerce_wire_integers`, at one value.
abbrev pub coerced : Option Value → Option Value
coerced (some (float (whole n))) = some (int n)
coerced v = v

coerced-coerced : (o : Option Value) → coerced (coerced o) ≡ coerced o
coerced-coerced o = ground arith

lookup-store_integer :
    (f k : String) (d : Dict Value) (o : Option Value)
    → lookup f d ≡ o
    → lookup k (store_integer f d o) ≡ (if str_eq f k then coerced (lookup k d) else lookup k d)
unfolding store_integer
lookup-store_integer f k d (some (float (whole n))) h =
    ground (arith, eq_iff f k, lookup-insert f k (int n) d)
lookup-store_integer f k d _ h = ground (arith, eq_iff f k)

lookup-coerce_wire_integer :
    (f k : String) (d : Dict Value)
    → lookup k (coerce_wire_integer f d) ≡ (if str_eq f k then coerced (lookup k d) else lookup k d)
unfolding coerce_wire_integer
lookup-coerce_wire_integer f k d = lookup-store_integer f k d (lookup f d) refl

pub lookup-coerce_wire_integers :
    (fs : List String) (k : String) (d : Dict Value)
    → lookup k (coerce_wire_integers fs d)
      ≡ (if contains k fs then coerced (lookup k d) else lookup k d)
unfolding coerce_wire_integers
lookup-coerce_wire_integers [] k d = refl
lookup-coerce_wire_integers (f ∷ fs) k d = ground (
  arith,
  lookup-coerce_wire_integers fs k (coerce_wire_integer f d),
  lookup-coerce_wire_integer f k d,
  coerced-coerced (lookup k d),
)

pub has_key-coerce :
    (fs : List String) (d : Dict Value) (k : String)
    → has_key (coerce_wire_integers fs d) k ≡ has_key d k
unfolding has_key
has_key-coerce fs d k = ground (arith, lookup-coerce_wire_integers fs k d)

keys_known-insert :
    (k : String) (v : Value) (d : Dict Value)
    → is_known k ≡ true
    → keys_known d ≡ true
    → keys_known (insert k v d) ≡ true
unfolding insert
keys_known-insert k v [] h hd = rw h
keys_known-insert k v ((j, w) ∷ d) h hd = ground (arith, keys_known-insert k v d)

keys_known-store_integer :
    (k : String) (d : Dict Value) (o : Option Value)
    → is_known k ≡ true
    → keys_known d ≡ true
    → keys_known (store_integer k d o) ≡ true
unfolding store_integer
keys_known-store_integer k d (some (float (whole n))) h hd = keys_known-insert k (int n) d h hd
keys_known-store_integer k d _ h hd = hd

pub keys_known-coerce :
    (fs : List String) (d : Dict Value)
    → all is_known fs ≡ true
    → keys_known d ≡ true
    → keys_known (coerce_wire_integers fs d) ≡ true
unfolding coerce_wire_integers coerce_wire_integer
keys_known-coerce [] d h hd = hd
keys_known-coerce (f ∷ fs) d h hd = ground (
  arith,
  keys_known-coerce fs (coerce_wire_integer f d),
  keys_known-store_integer f d (lookup f d),
)

pub keys_known-known_items : (xs : List (Key × Value)) → keys_known (known_items xs) ≡ true
unfolding known_items
keys_known-known_items [] = refl
keys_known-known_items ((name k, v) ∷ xs) = ground (arith, keys_known-known_items xs)
keys_known-known_items ((other_key, v) ∷ xs) = keys_known-known_items xs

pub lookup-known_items :
    (k : String) (d : Dict Value)
    → is_known k ≡ true
    → lookup k (known_items (items d)) ≡ lookup k d
unfolding known_items lookup
lookup-known_items k [] h = refl
lookup-known_items k ((j, v) ∷ d) h = ground (arith, eq_iff j k, lookup-known_items k d h)
