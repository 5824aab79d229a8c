-- ===== src/Channel/Summary/Amounts.antt =====
-- What a summary says of each payment.
use validating_lightning_sig.Common.{
  ℕ, ◌+◌, ◌<◌, ◌≡◌, refl, max, min, true, false, ◌||◌, List, [], ◌∷◌, arith, ◌==◌, if◌then◌else◌,
  Bool-cases, inl, inr, u64_mod, u64_add,
}
use validating_lightning_sig.Channel.{PaymentHash, HtlcInfo2}
use validating_lightning_sig.Channel.Summary.{
  Summary, modify_or_insert, modify, contains_key, retain_keys, add_htlcs, summarize_payments,
  union_max, lower_to, mention,
}

-- `summary.get(key).unwrap_or(0)`, as the node reads a summary.
pub amount : PaymentHash → Summary → ℕ
amount key [] = 0
amount key ((k, v) ∷ rest) = let later = amount key rest in (if k == key then v else later)

-- The HTLCs of a payment, added up.
unfoldable pub in_flight : PaymentHash → List HtlcInfo2 → ℕ
in_flight key [] = 0
in_flight key (h ∷ hs) =
    let rest = in_flight key hs in (if h.payment_hash == key then h.value_sat + rest else rest)

module _ (key : PaymentHash) where
  amount-modify_or_insert :
      (k : PaymentHash) (f : ℕ → ℕ) (new : ℕ) (m : Summary)
      → ((k == key) ≡ true → f 0 ≡ new)
      → amount key (modify_or_insert k f new m)
        ≡ (if k == key then f (amount key m) else amount key m)
  unfolding amount modify_or_insert
  amount-modify_or_insert k f new [] e = elim (Bool-cases (k == key)) [
    | inl same ↦ ground (arith, e same)
    | inr other ↦ ground arith
  ]
  amount-modify_or_insert k f new ((j, v) ∷ rest) e =
      ground (arith, amount-modify_or_insert k f new rest e)

  amount-modify :
      (k : PaymentHash) (f : ℕ → ℕ) (m : Summary)
      → f 0 ≡ 0
      → amount key (modify k f m) ≡ (if k == key then f (amount key m) else amount key m)
  unfolding amount modify
  amount-modify k f [] e = ground (arith, e)
  amount-modify k f ((j, v) ∷ rest) e = ground (arith, amount-modify k f rest e)

  pub amount-retain_keys :
      (other m : Summary)
      → amount key (retain_keys other m) ≡ (if contains_key key other then amount key m else 0)
  unfolding amount retain_keys
  amount-retain_keys other [] = ground arith
  amount-retain_keys other ((j, v) ∷ rest) = ground (arith, amount-retain_keys other rest)

  amount-add_htlcs :
      (m : Summary) (hs : List HtlcInfo2)
      → amount key m + in_flight key hs < u64_mod
      → amount key (add_htlcs m hs) ≡ amount key m + in_flight key hs
  unfolding add_htlcs in_flight
  amount-add_htlcs m [] small = ground arith
  amount-add_htlcs m (h ∷ hs) small =
      let up : ℕ → ℕ = λ e. u64_add e h.value_sat in
      let first : (h.payment_hash == key) ≡ true → up 0 ≡ h.value_sat = λ same. ground arith in
      let added = amount-modify_or_insert h.payment_hash up h.value_sat m first in
      elim (Bool-cases (h.payment_hash == key)) [
        | inl same ↦ ground (
          arith,
          added,
          amount-add_htlcs (modify_or_insert h.payment_hash up h.value_sat m) hs
              (ground (arith, added)),
        )
        | inr other ↦ ground (
          arith,
          added,
          amount-add_htlcs (modify_or_insert h.payment_hash up h.value_sat m) hs
              (ground (arith, added)),
        )
      ]

  pub amount-mention :
      (m : Summary) (hs : List HtlcInfo2) → amount key (mention m hs) ≡ amount key m
  unfolding mention
  amount-mention m [] = refl
  amount-mention m (h ∷ hs) =
      let added = amount-modify_or_insert h.payment_hash (λ e. e) 0 m (λ same. refl) in
      let rest = amount-mention (modify_or_insert h.payment_hash (λ e. e) 0 m) hs in
      ground (arith, added, rest)

-- No key stands twice.
abbrev pub Distinct : Summary → Type 0
Distinct [] = Unit
Distinct ((k, v) ∷ rest) = (contains_key k rest ≡ false) × Distinct rest

contains_key-modify_or_insert :
    (j k : PaymentHash) (f : ℕ → ℕ) (new : ℕ) (m : Summary)
    → contains_key j (modify_or_insert k f new m) ≡ (k == j || contains_key j m)
unfolding contains_key modify_or_insert
contains_key-modify_or_insert j k f new [] = ground arith
contains_key-modify_or_insert j k f new ((i, v) ∷ rest) =
    ground (arith, contains_key-modify_or_insert j k f new rest)

Distinct-by : (m m' : Summary) → m ≡ m' → Distinct m' → Distinct m
Distinct-by m m' e d = rw e d

Distinct-modify_or_insert :
    (k : PaymentHash) (f : ℕ → ℕ) (new : ℕ) (m : Summary)
    → Distinct m
    → Distinct (modify_or_insert k f new m)
unfolding modify_or_insert contains_key
Distinct-modify_or_insert k f new [] d = (refl, tt)
Distinct-modify_or_insert k f new ((i, v) ∷ rest) (out, d) = elim (Bool-cases (i == k)) [
  | inl same ↦
      Distinct-by (modify_or_insert k f new ((i, v) ∷ rest)) ((i, f v) ∷ rest) (ground arith)
        (out, d)
  | inr other ↦
      Distinct-by (modify_or_insert k f new ((i, v) ∷ rest))
        ((i, v) ∷ modify_or_insert k f new rest) (ground arith)
        (
          ground (arith, contains_key-modify_or_insert i k f new rest),
          Distinct-modify_or_insert k f new rest d,
        )
]

module _ (key : PaymentHash) where
  pub amount-absent : (m : Summary) → contains_key key m ≡ false → amount key m ≡ 0
  unfolding amount contains_key
  amount-absent [] h = refl
  amount-absent ((k, v) ∷ rest) h = ground (arith, amount-absent rest)

  absent_same :
      (k : PaymentHash) (m : Summary)
      → (k == key) ≡ true
      → contains_key k m ≡ false
      → contains_key key m ≡ false
  absent_same k m same out = let e : k ≡ key = ground arith in rw e at out

  pub amount-union_max :
      (m other : Summary)
      → Distinct other
      → amount key (union_max m other) ≡ max (amount key m) (amount key other)
  unfolding amount union_max
  amount-union_max m [] d = omega arith
  amount-union_max m ((k, v) ∷ rest) (out, d) =
      let added = amount-modify_or_insert key k (λ e. max e v) v m (λ same. omega arith) in
      let after = amount-union_max (modify_or_insert k (λ e. max e v) v m) rest d in
      elim (Bool-cases (k == key)) [
        | inl same ↦ ground (arith, added, after, amount-absent rest (absent_same k rest same out))
        | inr other ↦ ground (arith, added, after)
      ]

  pub amount-lower_to :
      (m other : Summary)
      → Distinct other
      → amount key (lower_to m other)
        ≡ (if contains_key key other then min (amount key m) (amount key other) else amount key m)
  unfolding amount lower_to contains_key
  amount-lower_to m [] d = refl
  amount-lower_to m ((k, v) ∷ rest) (out, d) =
      let lowered = amount-modify key k (λ e. min e v) m (omega arith) in
      let after = amount-lower_to (modify k (λ e. min e v) m) rest d in
      elim (Bool-cases (k == key)) [
        | inl same ↦ ground (arith, lowered, after, absent_same k rest same out)
        | inr other ↦ ground (arith, lowered, after)
      ]

Distinct-add_htlcs : (m : Summary) (hs : List HtlcInfo2) → Distinct m → Distinct (add_htlcs m hs)
unfolding add_htlcs
Distinct-add_htlcs m [] d = d
Distinct-add_htlcs m (h ∷ hs) d =
    Distinct-add_htlcs (modify_or_insert h.payment_hash (λ e. u64_add e h.value_sat) h.value_sat m)
      hs (Distinct-modify_or_insert h.payment_hash (λ e. u64_add e h.value_sat) h.value_sat m d)

pub amount-summarize_payments :
    (key : PaymentHash) (hs : List HtlcInfo2)
    → in_flight key hs < u64_mod
    → amount key (summarize_payments hs) ≡ in_flight key hs
unfolding summarize_payments amount
amount-summarize_payments key hs small = omega (arith, amount-add_htlcs key [] hs (omega arith))

pub Distinct-summarize_payments : (hs : List HtlcInfo2) → Distinct (summarize_payments hs)
unfolding summarize_payments
Distinct-summarize_payments hs = Distinct-add_htlcs [] hs tt
