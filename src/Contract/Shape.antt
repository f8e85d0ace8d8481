-- ===== src/Contract/Shape.antt =====
-- What every constructed record satisfies.
use tokenweir.Prelude.{ℕ, ◌≤◌, String, Bool, true, ◌≡◌, refl, subst, Dict, arith}
use tokenweir.Contract.Values.{
  Value, Result, ok, err, ◌>>=◌, has_non_blank, required_str, optional_str, non_negative_int,
  token_count, coerce_mode, version,
}
use tokenweir.Contract.Record.{UsageRecord, Attributes, post_init, construct, attributes}

-- The five identity fields hold a character that is not blank, and the version is at least 1. (That
-- the counts are natural numbers, and that a mode is one of the two, is in the types.)
pub record IsValid (r : UsageRecord) : Type 0 where
  pub request_id : has_non_blank r.request_id ≡ true
  pub app_id : has_non_blank r.app_id ≡ true
  pub endpoint : has_non_blank r.endpoint ≡ true
  pub model : has_non_blank r.model ≡ true
  pub status : has_non_blank r.status ≡ true
  pub version : 1 ≤ r.version

-- What holds of the value of a step of `post_init`, if it has one.
abbrev Gives {ℓ κ} : {A : Type ℓ} → (A → Type κ) → Result A → Type κ
Gives P (ok a) = P a
Gives P (err e) = Unit

Gives-bind {ℓ κ μ ν} :
    {A : Type ℓ} {B : Type κ} (Q : A → Type μ) (P : B → Type ν) (m : Result A) (f : A → Result B)
    → Gives Q m
    → ((a : A) → Q a → Gives P (f a))
    → Gives P (m >>= f)
Gives-bind Q P (ok a) f hm hf = hf a hm
Gives-bind Q P (err e) f hm hf = tt

abbrev NonBlank : String → Type 0
NonBlank s = has_non_blank s ≡ true

abbrev Positive : ℕ → Type 0
Positive n = 1 ≤ n

abbrev Anything {ℓ} : {A : Type ℓ} → A → Type 0
Anything a = Unit

text-Gives : (n : String) (v : Value) → Gives NonBlank (required_str n v)
unfolding required_str
text-Gives n v = ground arith

version-Gives : (v : Value) → Gives Positive (version v)
unfolding version
version-Gives v = ground arith

optional-Gives : (n : String) (v : Value) → Gives Anything (optional_str n v)
unfolding optional_str
optional-Gives n v = ground arith

latency-Gives : (n : String) (v : Value) (b : Bool) → Gives Anything (non_negative_int n v b)
unfolding non_negative_int
latency-Gives n v b = ground arith

count-Gives : (n : String) (v : Value) → Gives Anything (token_count n v)
unfolding token_count
count-Gives n v = ground arith

mode-Gives : (v : Value) → Gives Anything (coerce_mode v)
unfolding coerce_mode
mode-Gives v = ground arith

post_init-Gives : (self : Attributes) → Gives IsValid (post_init self)
unfolding post_init
post_init-Gives self = Gives-bind NonBlank IsValid _ _ (text-Gives _ _) λ a ha.
    Gives-bind NonBlank IsValid _ _ (text-Gives _ _) λ b hb.
      Gives-bind NonBlank IsValid _ _ (text-Gives _ _) λ c hc.
        Gives-bind NonBlank IsValid _ _ (text-Gives _ _) λ d hd.
          Gives-bind NonBlank IsValid _ _ (text-Gives _ _) λ e he.
            Gives-bind Anything IsValid _ _ (optional-Gives _ _) λ _ _.
              Gives-bind Anything IsValid _ _ (optional-Gives _ _) λ _ _.
                Gives-bind Anything IsValid _ _ (optional-Gives _ _) λ _ _.
                  Gives-bind Anything IsValid _ _ (optional-Gives _ _) λ _ _.
                    Gives-bind Anything IsValid _ _ (count-Gives _ _) λ _ _.
                      Gives-bind Anything IsValid _ _ (count-Gives _ _) λ _ _.
                        Gives-bind Anything IsValid _ _ (count-Gives _ _) λ _ _.
                          Gives-bind Anything IsValid _ _ (count-Gives _ _) λ _ _.
                            Gives-bind Anything IsValid _ _ (latency-Gives _ _ _) λ _ _.
                              Gives-bind Positive IsValid _ _ (version-Gives _) λ n hn.
                                Gives-bind Anything IsValid _ _ (mode-Gives _) λ _ _. record {
                                  request_id = ha;
                                  app_id = hb;
                                  endpoint = hc;
                                  model = hd;
                                  status = he;
                                  version = hn;
                                }

-- The four counts of a record are what the validators make of the four attributes.
pub record Counted (self : Attributes) (r : UsageRecord) : Type 0 where
  pub input_tokens : token_count "input_tokens" (self "input_tokens") ≡ ok r.input_tokens
  pub output_tokens : token_count "output_tokens" (self "output_tokens") ≡ ok r.output_tokens
  pub creation :
      token_count "cache_creation_input_tokens" (self "cache_creation_input_tokens")
      ≡ ok r.cache_creation_input_tokens
  pub read :
      token_count "cache_read_input_tokens" (self "cache_read_input_tokens")
      ≡ ok r.cache_read_input_tokens

value-Gives {ℓ} : {A : Type ℓ} (m : Result A) → Gives (λ a. m ≡ ok a) m
value-Gives (ok a) = refl
value-Gives (err e) = tt

counted_lem :
    (self : Attributes) (r : UsageRecord)
    → token_count "input_tokens" (self "input_tokens") ≡ ok r.input_tokens
    → token_count "output_tokens" (self "output_tokens") ≡ ok r.output_tokens
    → token_count "cache_creation_input_tokens" (self "cache_creation_input_tokens")
      ≡ ok r.cache_creation_input_tokens
    → token_count "cache_read_input_tokens" (self "cache_read_input_tokens")
      ≡ ok r.cache_read_input_tokens
    → Counted self r
counted_lem self r i o c d = record { input_tokens = i; output_tokens = o; creation = c; read = d }

post_init-Counted : (self : Attributes) → Gives (Counted self) (post_init self)
unfolding post_init
post_init-Counted self = Gives-bind NonBlank (Counted self) _ _ (text-Gives _ _) λ x0 _.
    Gives-bind NonBlank (Counted self) _ _ (text-Gives _ _) λ x1 _.
      Gives-bind NonBlank (Counted self) _ _ (text-Gives _ _) λ x2 _.
        Gives-bind NonBlank (Counted self) _ _ (text-Gives _ _) λ x3 _.
          Gives-bind NonBlank (Counted self) _ _ (text-Gives _ _) λ x4 _.
            Gives-bind Anything (Counted self) _ _ (optional-Gives _ _) λ x5 _.
              Gives-bind Anything (Counted self) _ _ (optional-Gives _ _) λ x6 _.
                Gives-bind Anything (Counted self) _ _ (optional-Gives _ _) λ x7 _.
                  Gives-bind Anything (Counted self) _ _ (optional-Gives _ _) λ x8 _.
                    Gives-bind (λ n. token_count "input_tokens" (self "input_tokens") ≡ ok n)
                      (Counted self) _ _
                      (value-Gives (token_count "input_tokens" (self "input_tokens")))
                      λ x9 h9.
                        Gives-bind (λ n. token_count "output_tokens" (self "output_tokens") ≡ ok n)
                          (Counted self) _ _
                          (value-Gives (token_count "output_tokens" (self "output_tokens")))
                          λ x10 h10.
                            Gives-bind
                              (λ n.
                                token_count "cache_creation_input_tokens"
                                  (self "cache_creation_input_tokens")
                                ≡ ok n)
                              (Counted self) _ _
                              (value-Gives (
                                token_count "cache_creation_input_tokens"
                                  (self "cache_creation_input_tokens")))
                              λ x11 h11.
                                Gives-bind
                                  (λ n.
                                    token_count "cache_read_input_tokens"
                                      (self "cache_read_input_tokens")
                                    ≡ ok n)
                                  (Counted self) _ _
                                  (value-Gives (
                                    token_count "cache_read_input_tokens"
                                      (self "cache_read_input_tokens")))
                                  λ x12 h12.
                                    Gives-bind Anything (Counted self) _ _ (latency-Gives _ _ _)
                                      λ x13 _.
                                        Gives-bind Positive (Counted self) _ _ (version-Gives _)
                                          λ x14 _.
                                            Gives-bind Anything (Counted self) _ _ (mode-Gives _)
                                              λ x15 _.
                                                counted_lem self
                                                  (record {
                                                    request_id = x0;
                                                    app_id = x1;
                                                    endpoint = x2;
                                                    model = x3;
                                                    status = x4;
                                                    workload = x5;
                                                    parent_request_id = x6;
                                                    queue = x7;
                                                    ts = x8;
                                                    input_tokens = x9;
                                                    output_tokens = x10;
                                                    cache_creation_input_tokens = x11;
                                                    cache_read_input_tokens = x12;
                                                    latency_ms = x13;
                                                    version = x14;
                                                    pricing_mode = x15;
                                                  })
                                                  h9 h10 h11 h12

post_init-IsValid : (self : Attributes) (r : UsageRecord) → post_init self ≡ ok r → IsValid r
post_init-IsValid self r h = subst (Gives IsValid) h (post_init-Gives self)

-- A record that construction returns has five identity fields that are not blank, and a version of
-- at least 1.
pub construct-IsValid :
    (kwargs : Dict Value) (r : UsageRecord) → construct kwargs ≡ ok r → IsValid r
unfolding construct
construct-IsValid kwargs r h =
    let at : Attributes = attributes kwargs in ground (arith, post_init-IsValid at r)

pub construct-Counted :
    (kwargs : Dict Value) (r : UsageRecord)
    → construct kwargs ≡ ok r
    → Counted (attributes kwargs) r
unfolding construct
construct-Counted kwargs r h =
    let at : Attributes = attributes kwargs in
    ground (arith, λ (e : post_init at ≡ ok r). subst (Gives (Counted at)) e (post_init-Counted at))
