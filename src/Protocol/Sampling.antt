-- ===== src/Protocol/Sampling.antt =====
-- internal/protocol/protocol.go: the sampling settings of `ValidateGenerate`.
use yllmd.Base.{
  ℕ, ◌-◌, ◌^◌, ◌<◌, ℤ, ◌≡◌, ◌⊎◌, ◌↔◌, refl, Bool, false, ◌&&◌, ◌||◌, Option, none, some, ok, ◌>>◌,
  reject, ltb, string_eq, nat_eq, arith, ◌!=◌, is_negative, is_nonpositive, exceeds,
}
use yllmd.Base.Float.{Float64, is_nan, InClosed, InHalfOpen, closed_range, half_open_range}
use yllmd.Protocol.{RequestError, GenerationSettings}
use yllmd.Protocol.Generation.{
  validate_sampling, outside_closed, outside_half_open, given, zero_float, one_float, two_float,
  minus_two_float, hundred_float,
}
use yllmd.Protocol.Accepted.{Given, IsBetween, IsSampling}

outside_closed_iff :
    (low high : Float64) (x : Option Float64)
    → is_nan low ≡ false
    → is_nan high ≡ false
    → (given x (outside_closed low high) ≡ false) ↔ Given x (InClosed low high)
unfolding outside_closed
outside_closed_iff low high none l h = (λ _. tt, λ _. refl)
outside_closed_iff low high (some x) l h = closed_range low high x (l, h)

outside_half_open_iff :
    (low high : Float64) (x : Option Float64)
    → is_nan low ≡ false
    → is_nan high ≡ false
    → (given x (outside_half_open low high) ≡ false) ↔ Given x (InHalfOpen low high)
unfolding outside_half_open
outside_half_open_iff low high none l h = (λ _. tt, λ _. refl)
outside_half_open_iff low high (some x) l h = half_open_range low high x (l, h)

max_tokens_iff :
    (n : Option ℤ)
    → (given n (λ i. is_nonpositive i || exceeds i 1000000) ≡ false) ↔ Given n (IsBetween 1 1000000)
max_tokens_iff n = (λ h. ground arith, λ h. ground arith)

top_k_iff :
    (n : Option ℤ)
    → (given n (λ i. is_negative i || exceeds i 1000000) ≡ false) ↔ Given n (IsBetween 0 1000000)
top_k_iff n = (λ h. ground arith, λ h. ground arith)

seed_iff :
    (n : Option ℕ)
    → (given n (λ i. (i != (2 ^ 64 - 1)) && ltb (2 ^ 32 - 1) i) ≡ false)
      ↔ Given n (λ i. (i < 2 ^ 32) ⊎ (i ≡ 2 ^ 64 - 1))
seed_iff n = (λ h. ground arith, λ h. ground arith)

-- A chain of eight guards passes only if none of them fires.
eight_guards :
    (a b c d e f g h : Bool) (x1 x2 x3 x4 x5 x6 x7 x8 : RequestError)
    → (do
      reject a x1
      reject b x2
      reject c x3
      reject d x4
      reject e x5
      reject f x6
      reject g x7
      reject h x8)
      ≡ ok tt
    → (a ≡ false)
      × (b ≡ false)
      × (c ≡ false)
      × (d ≡ false)
      × (e ≡ false)
      × (f ≡ false)
      × (g ≡ false)
      × (h ≡ false)
eight_guards a b c d e f g h x1 x2 x3 x4 x5 x6 x7 x8 passed = ground arith

zero_number : is_nan zero_float ≡ false
unfolding is_nan
zero_number = refl

one_number : is_nan one_float ≡ false
unfolding is_nan
one_number = refl

two_number : is_nan two_float ≡ false
unfolding is_nan
two_number = refl

minus_two_number : is_nan minus_two_float ≡ false
unfolding is_nan
minus_two_number = refl

hundred_number : is_nan hundred_float ≡ false
unfolding is_nan
hundred_number = refl

pub validate_sampling-IsSampling :
    (s : GenerationSettings) → validate_sampling s ≡ ok tt → IsSampling s
unfolding validate_sampling
validate_sampling-IsSampling s h =
    let (t, p, m, k, q, u, w, seed) =
      eight_guards (given s.temperature (outside_closed zero_float hundred_float))
        (given s.top_p (outside_half_open zero_float one_float))
        (given s.max_tokens (λ n. is_nonpositive n || exceeds n 1000000))
        (given s.top_k (λ n. is_negative n || exceeds n 1000000))
        (given s.min_p (outside_closed zero_float one_float))
        (given s.presence_penalty (outside_closed minus_two_float two_float))
        (given s.repeat_penalty (outside_half_open zero_float hundred_float))
        (given s.seed (λ n. (n != (2 ^ 64 - 1)) && ltb (2 ^ 32 - 1) n)) _ _ _ _ _ _ _ _ h in
    record {
      temperature = (outside_closed_iff _ _ s.temperature zero_number hundred_number).0 t;
      top_p = (outside_half_open_iff _ _ s.top_p zero_number one_number).0 p;
      max_tokens = (max_tokens_iff s.max_tokens).0 m;
      top_k = (top_k_iff s.top_k).0 k;
      min_p = (outside_closed_iff _ _ s.min_p zero_number one_number).0 q;
      presence_penalty =
          (outside_closed_iff _ _ s.presence_penalty minus_two_number two_number).0 u;
      repeat_penalty = (outside_half_open_iff _ _ s.repeat_penalty zero_number hundred_number).0 w;
      seed = (seed_iff s.seed).0 seed;
    }

pub validate_sampling_of_IsSampling :
    (s : GenerationSettings) → IsSampling s → validate_sampling s ≡ ok tt
unfolding validate_sampling
validate_sampling_of_IsSampling s v = rw (
  (outside_closed_iff _ _ s.temperature zero_number hundred_number).1 v.temperature,
  (outside_half_open_iff _ _ s.top_p zero_number one_number).1 v.top_p,
  (max_tokens_iff s.max_tokens).1 v.max_tokens,
  (top_k_iff s.top_k).1 v.top_k,
  (outside_closed_iff _ _ s.min_p zero_number one_number).1 v.min_p,
  (outside_closed_iff _ _ s.presence_penalty minus_two_number two_number).1 v.presence_penalty,
  (outside_half_open_iff _ _ s.repeat_penalty zero_number hundred_number).1 v.repeat_penalty,
  (seed_iff s.seed).1 v.seed,
)
