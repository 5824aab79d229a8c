-- ===== src/Velocity/Refines.antt =====
-- `VelocityControl` refines the list of the payments that it accepted.
use native.Mathlib.Nat.{
  div-add-mod', mod-lt, mul-add-div_right, div-eq_of_lt, add-zero, mul-div_cancel,
}
use native.Mathlib.Nat.{le-div_iff_mul-le}
use native.Mathlib.Decide.{dec_le}
use mathlib.Core.List.{append-nil}
use validating_lightning_sig.Common.{
  ℕ, zero, suc, ◌+◌, ◌-◌, ◌*◌, ◌/◌, ◌%◌, ◌≤◌, ◌<◌, min, ◌≡◌, refl, sym, ap, ◌∙◌, List, [], ◌∷◌,
  ◌++◌, arith, length, length-append, length-take, length-replicate, take, replicate, u64_max,
  u64_mod, u64_sub, saturating_add,
}
use validating_lightning_sig.Velocity.{
  VelocityControl, velocity, velocity_from, push_zeros, shift, advance,
}
use validating_lightning_sig.Velocity.Window.{
  Payment, window, UpTo, UpTo-mono, length-window, window-shift, window-future, window-append,
  take-window,
}

abbrev pub sum : List ℕ → ℕ
sum [] = 0
sum (x ∷ xs) = x + sum xs

-- The control holds exactly what the accepted payments come to, and never more than its limit.
pub record Represents (log : List Payment) (c : VelocityControl) : Type 0 where
  pub ticking : 0 < c.bucket_interval
  pub nonempty : 0 < length c.buckets
  pub aligned : c.start_sec ≡ c.start_sec / c.bucket_interval * c.bucket_interval
  pub past : UpTo c.bucket_interval (c.start_sec / c.bucket_interval) log
  pub exact :
      c.buckets
      ≡ window c.bucket_interval (length c.buckets) (c.start_sec / c.bucket_interval) 0 log
  pub within : sum c.buckets ≤ c.limit

velocity_from-sum :
    (acc : ℕ) (xs : List ℕ) → acc ≤ u64_max → velocity_from acc xs ≡ min (acc + sum xs) u64_max
unfolding velocity_from
velocity_from-sum acc [] h = omega arith
velocity_from-sum acc (x ∷ xs) h =
    omega (arith, velocity_from-sum (saturating_add acc x) xs (omega arith))

-- The velocity is the sum of the buckets, saturated.
pub velocity-sum : (c : VelocityControl) → velocity c ≡ min (sum c.buckets) u64_max
unfolding velocity
velocity-sum c = omega (arith, velocity_from-sum 0 c.buckets (omega arith))

pub sum-append : (xs ys : List ℕ) → sum (xs ++ ys) ≡ sum xs + sum ys
sum-append [] ys = omega arith
sum-append (x ∷ xs) ys = omega (arith, sum-append xs ys)

sum-take : (n : ℕ) (xs : List ℕ) → sum (take n xs) ≤ sum xs
sum-take zero xs = omega arith
sum-take (suc n) [] = omega arith
sum-take (suc n) (x ∷ xs) = omega (arith, sum-take n xs)

pub sum-replicate : (n : ℕ) → sum (replicate n 0) ≡ 0
sum-replicate zero = refl
sum-replicate (suc n) = omega (arith, sum-replicate n)

replicate-append : (n : ℕ) (xs : List ℕ) → replicate n 0 ++ 0 ∷ xs ≡ 0 ∷ (replicate n 0 ++ xs)
replicate-append zero xs = refl
replicate-append (suc n) xs = ap (λ w. 0 ∷ w) (replicate-append n xs)

push_zeros-replicate : (n : ℕ) (xs : List ℕ) → push_zeros n xs ≡ replicate n 0 ++ xs
unfolding push_zeros
push_zeros-replicate zero xs = refl
push_zeros-replicate (suc n) xs = push_zeros-replicate n (0 ∷ xs) ∙ replicate-append n xs

pub shift-append : (k : ℕ) (xs : List ℕ) → shift k xs ≡ replicate k 0 ++ take (length xs - k) xs
unfolding shift
shift-append k xs = push_zeros-replicate k (take (length xs - k) xs)

pub length-shift : (k : ℕ) (xs : List ℕ) → k ≤ length xs → length (shift k xs) ≡ length xs
length-shift k xs h = rw (shift-append k xs) (
    omega (
      arith,
      length-append (replicate k 0) (take (length xs - k) xs),
      length-replicate {0} {A = ℕ} k 0,
      length-take (length xs - k) xs,
    ))

sum-shift : (k : ℕ) (xs : List ℕ) → sum (shift k xs) ≤ sum xs
sum-shift k xs = rw (shift-append k xs) (
    omega (
      arith,
      sum-append (replicate k 0) (take (length xs - k) xs),
      sum-replicate k,
      sum-take (length xs - k) xs,
    ))

div_shift : (i top d r : ℕ) → 0 < i → r < i → ((top + d) * i + r - top * i) / i ≡ d
div_shift i top d r pos small =
    let e : (top + d) * i + r - top * i ≡ d * i + r = omega arith in
    rw (e, mul-add-div_right pos d r, div-eq_of_lt small) (add-zero d)

module _ (i n top : ℕ) (log : List Payment) where
  -- Buckets that fell behind by `d` are the window of the later time, also when all are too old.
  shift-window_some :
      (d : ℕ) → UpTo i top log → d ≤ n → shift d (window i n top 0 log) ≡ window i n (top + d) 0 log
  shift-window_some d u h =
      let split : n ≡ d + (n - d) = omega arith in
      let old : (n - d) ≤ n = omega arith in
      shift-append d (window i n top 0 log)
      ∙ rw (length-window i n top 0 log, take-window i (n - d) n top 0 log old)
          (ap (λ w. w ++ window i (n - d) top 0 log)
              (sym (window-future i d top (top + d) 0 log u (omega arith)))
            ∙ ap (λ w. window i d (top + d) 0 log ++ w) (sym (window-shift i (n - d) top 0 d log))
            ∙ sym (window-append i d (n - d) (top + d) 0 log)
            ∙ ap (λ m. window i m (top + d) 0 log) (sym split))

  -- The same where all buckets are too old.
  shift-window_all :
      (d : ℕ) → UpTo i top log → n ≤ d → shift n (window i n top 0 log) ≡ window i n (top + d) 0 log
  shift-window_all d u h =
      let none_left : n - n ≡ 0 = omega arith in
      shift-append n (window i n top 0 log)
      ∙ rw (length-window i n top 0 log, none_left)
          (append-nil (replicate n 0) ∙ sym (window-future i n top (top + d) 0 log u (omega arith)))

  shift-window :
      (d : ℕ) → UpTo i top log → shift (min n d) (window i n top 0 log) ≡ window i n (top + d) 0 log
  shift-window d u = elim (dec_le n d) [
    | yes h ↦ let e : min n d ≡ n = omega arith in rw e (shift-window_all d u h)
    | no h ↦ let e : min n d ≡ d = omega arith in rw e (shift-window_some d u (omega arith))
  ]

module _ (c : VelocityControl) (log : List Payment) (inv : Represents log c) (now : ℕ) where
  abbrev pub step : ℕ
  step = c.bucket_interval

  abbrev pub top : ℕ
  top = c.start_sec / step

  top_le : c.start_sec ≤ now → top ≤ now / step
  top_le h = (le-div_iff_mul-le inv.ticking).1 (omega (arith, inv.aligned))

  nshift_eq : c.start_sec ≤ now → now < u64_mod → u64_sub now c.start_sec / step ≡ now / step - top
  nshift_eq h w =
      let d : ℕ = now / step - top in
      let split : now / step ≡ top + d = omega (arith, top_le h) in
      let parts : (now / step) * step + now % step ≡ now = div-add-mod' now step in
      let whole : (top + d) * step + now % step ≡ now = rw (← split) parts in
      let gap : u64_sub now c.start_sec ≡ (top + d) * step + now % step - top * step =
        omega (arith, inv.aligned, whole) in
      rw gap (div_shift step top d (now % step) inv.ticking (mod-lt now inv.ticking))

  -- After the time has passed the buckets are the totals as seen from the present.
  pub advance-buckets :
      c.start_sec ≤ now
      → now < u64_mod
      → (advance c now).buckets ≡ window step (length c.buckets) (now / step) 0 log
  unfolding advance
  advance-buckets h w =
      let split : top + (now / step - top) ≡ now / step = omega (arith, top_le h) in
      rw (nshift_eq h w) (
        ap (shift (min (length c.buckets) (now / step - top))) inv.exact
        ∙ shift-window step (length c.buckets) top log (now / step - top) inv.past
        ∙ ap (λ t. window step (length c.buckets) t 0 log) split)

  pub advance-length : length (advance c now).buckets ≡ length c.buckets
  unfolding advance
  advance-length =
      length-shift (min (length c.buckets) (u64_sub now c.start_sec / step)) c.buckets (omega arith)

  pub advance-start : (advance c now).start_sec ≡ (now / step) * step
  unfolding advance
  advance-start = omega (arith, div-add-mod' now step)

  pub advance-epoch : (advance c now).start_sec / step ≡ now / step
  advance-epoch = rw advance-start (mul-div_cancel (now / step) inv.ticking)

  pub advance-interval : (advance c now).bucket_interval ≡ step
  unfolding advance
  advance-interval = refl

  pub advance-limit : (advance c now).limit ≡ c.limit
  unfolding advance
  advance-limit = refl

  pub advance-within : sum (advance c now).buckets ≤ c.limit
  unfolding advance
  advance-within = omega (
    arith,
    sum-shift (min (length c.buckets) (u64_sub now c.start_sec / step)) c.buckets,
    inv.within,
  )

  -- The passage of time alone keeps the refinement.
  pub advance-Represents : c.start_sec ≤ now → now < u64_mod → Represents log (advance c now)
  unfolding advance
  advance-Represents h w = record {
    ticking = inv.ticking;
    nonempty = omega (arith, advance-length, inv.nonempty);
    aligned = rw advance-epoch advance-start;
    past = rw advance-epoch (UpTo-mono step log (top_le h) inv.past);
    exact = rw (advance-epoch, advance-length) (advance-buckets h w);
    within = advance-within;
  }
