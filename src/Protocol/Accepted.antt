-- ===== src/Protocol/Accepted.antt =====
-- internal/protocol/protocol.go: which generation requests the daemon accepts, said field by field.
use text.Mathlib.TextEquality.{eq_iff}
use yllmd.Base.{
  ℕ, suc, ◌-◌, ◌^◌, ◌≤◌, ◌<◌, ℤ, pos, negsuc, ◌≡◌, ◌≢◌, ◌⊎◌, ◌↔◌, refl, true, false, String, Option,
  none, some, List, [], ◌∷◌, ok, length, is_empty, All, string_eq, nat_eq, arith, is_negative,
}
use yllmd.Base.Float.{InClosed, InHalfOpen}
use yllmd.Wire.Generate.Limits.{IsStop, total_bytes}
use yllmd.Protocol.{
  Request, Message, Input, Output, GenerationSettings, ModelTarget, normalized_target,
  target_or_empty,
}
use yllmd.Protocol.Models.{is_blank}
use yllmd.Protocol.Generation.{
  valid_role, validate_messages, validate_input, zero_float, one_float, two_float, minus_two_float,
  hundred_float,
}

-- A field that is absent, or satisfies `P`.
abbrev pub Given {ℓ} : {A : Type ℓ} → Option A → (A → Type 0) → Type 0
Given none P = Unit {0}
Given (some a) P = P a

abbrev pub IsMessage : Message → Type 0
IsMessage m =
    ((m.role ≡ "system") ⊎ ((m.role ≡ "user") ⊎ (m.role ≡ "assistant")))
    × (is_blank m.content ≡ false)

abbrev pub IsInput : Input → Type 0
IsInput i =
    ((i.kind ≡ "prompt") × (is_blank i.prompt ≡ false))
    ⊎ ((i.kind ≡ "messages") × (is_empty i.messages ≡ false) × All IsMessage i.messages)

-- An exact model, or a group with or without a profile, or nothing.
abbrev pub IsTarget : ModelTarget → Type 0
IsTarget t =
    ((t.model ≡ "") ⊎ ((t.group ≡ "") × (t.profile ≡ ""))) × ((t.profile ≡ "") ⊎ (t.group ≢ ""))

-- An `int` from `low` to `high`.
abbrev pub IsBetween : ℕ → ℕ → ℤ → Type 0
IsBetween low high (pos n) = (low ≤ n) × (n ≤ high)
IsBetween low high (negsuc n) = ⊥

pub record IsSampling (s : GenerationSettings) : Type 0 where
  pub temperature : Given s.temperature (InClosed zero_float hundred_float)
  pub top_p : Given s.top_p (InHalfOpen zero_float one_float)
  pub max_tokens : Given s.max_tokens (IsBetween 1 1000000)
  pub top_k : Given s.top_k (IsBetween 0 1000000)
  pub min_p : Given s.min_p (InClosed zero_float one_float)
  pub presence_penalty : Given s.presence_penalty (InClosed minus_two_float two_float)
  pub repeat_penalty : Given s.repeat_penalty (InHalfOpen zero_float hundred_float)
  pub seed : Given s.seed (λ n. (n < 2 ^ 32) ⊎ (n ≡ 2 ^ 64 - 1))

abbrev pub IsOutput : Output → Type 0
IsOutput o =
    ((o.format ≡ "json") ⊎ ((o.format ≡ "text") ⊎ (o.format ≡ "raw")))
    × ((o.delivery ≡ "stream") ⊎ (o.delivery ≡ "complete"))

pub record IsQueued (r : Request) : Type 0 where
  pub policy : (r.queue.policy ≡ "") ⊎ (r.queue.policy ≡ "wait")
  pub timeout : is_negative r.queue.timeout_ms ≡ false
  pub format :
      (r.output_format ≡ "")
      ⊎ ((r.output_format ≡ "json") ⊎ ((r.output_format ≡ "text") ⊎ (r.output_format ≡ "raw")))

-- Everything that the protocol asks of a generation.
pub record IsAccepted (r : Request) : Type 0 where
  pub kind : r.kind ≡ "generate"
  pub no_model : r.model ≡ ""
  pub target : IsTarget (target_or_empty r.target)
  pub input : (i : Input) × (r.input ≡ some i) × IsInput i
  pub sampling : IsSampling r.settings
  pub stops_few : length r.settings.stop ≤ 64
  pub stops_valid : All IsStop r.settings.stop
  pub stops_short : total_bytes r.settings.stop ≤ 65536
  pub output : Given r.settings.output IsOutput
  pub queue : IsQueued r

valid_role_iff :
    (role : String)
    → (valid_role role ≡ true) ↔ ((role ≡ "system") ⊎ ((role ≡ "user") ⊎ (role ≡ "assistant")))
unfolding valid_role
valid_role_iff role = (
  λ h. ground (arith, eq_iff role "system", eq_iff role "user", eq_iff role "assistant"),
  λ h. ground (arith, eq_iff role "system", eq_iff role "user", eq_iff role "assistant"),
)

validate_messages_iff :
    (i : ℕ) (ms : List Message) → (validate_messages i ms ≡ ok tt) ↔ All IsMessage ms
unfolding validate_messages
validate_messages_iff i [] = (λ h. tt, λ h. refl)
validate_messages_iff i (m ∷ ms) = (
  λ h. ground (arith, valid_role_iff m.role, validate_messages_iff (suc i) ms),
  λ h. ground (arith, valid_role_iff m.role, validate_messages_iff (suc i) ms),
)

pub validate_input_iff : (i : Input) → (validate_input i ≡ ok tt) ↔ IsInput i
unfolding validate_input
validate_input_iff i = (
  λ h. ground (
    arith,
    eq_iff i.kind "prompt",
    eq_iff i.kind "messages",
    eq_iff "prompt" "messages",
    validate_messages_iff 0 i.messages,
  ),
  λ h. ground (
    arith,
    eq_iff i.kind "prompt",
    eq_iff i.kind "messages",
    eq_iff "prompt" "messages",
    validate_messages_iff 0 i.messages,
  ),
)

pub normalized_target-ok_iff :
    (r : Request)
    → ((normalized_target r ≡ ok (target_or_empty r.target)))
      ↔ ((r.model ≡ "") × IsTarget (target_or_empty r.target))
unfolding normalized_target
normalized_target-ok_iff r =
    let t = target_or_empty r.target in
    (
      λ h.
          ground
            (arith, eq_iff r.model "", eq_iff t.model "", eq_iff t.group "", eq_iff t.profile ""),
      λ h.
          ground
            (arith, eq_iff r.model "", eq_iff t.model "", eq_iff t.group "", eq_iff t.profile ""),
    )
