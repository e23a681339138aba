-- ===== src/Runner/Prompts/Turns.antt =====
-- internal/providers/local/runner.go: the conversations of the templates that check roles.
use text.Mathlib.TextEquality.{eq_iff}
use mathlib.Core.Path.{subst}
use yllmd.Base.{
  none, some, ap, sym, ◌∙◌, Bool-cases, inl, inr, if◌then◌else◌, ℕ, suc, ◌%◌, ◌≡◌, ◌↔◌, refl, Bool,
  true, false, not, ◌&&◌, is_ok, String, ◌<>◌, List, [], ◌∷◌, is_empty, ◌==◌, string_eq, nat_eq,
  arith,
}
use yllmd.Base.Text.{trim_space}
use yllmd.Protocol.{Message}
use yllmd.Runner.Prompts.{
  expected_role, Opened, open_dialogue, system_text, gemma3_loop, mistral_loop, qwen3_loop,
  gemma3_chat_prompt, mistral_nemo_instruct_prompt, qwen3_non_thinking_prompt,
}

-- Turns of a user and an assistant by turns: from the user's side, and from the assistant's.
mutual
  pub data UserTurn : List Message → Type 0 where
    user_end : UserTurn []
    user :
        {m : Message} {ms : List Message} → m.role ≡ "user" → AssistantTurn ms → UserTurn (m ∷ ms)

  pub data AssistantTurn : List Message → Type 0 where
    assistant_end : AssistantTurn []
    assistant :
        {m : Message} {ms : List Message}
        → m.role ≡ "assistant"
        → UserTurn ms
        → AssistantTurn (m ∷ ms)

-- One turn at least, the first of them the user's, after one system message or none.
pub data IsConversation : List Message → Type 0 where
  plain :
      {m : Message} {ms : List Message}
      → m.role ≡ "user"
      → AssistantTurn ms
      → IsConversation (m ∷ ms)
  instructed :
      {m m' : Message} {ms : List Message}
      → m.role ≡ "system"
      → m'.role ≡ "user"
      → AssistantTurn ms
      → IsConversation (m ∷ m' ∷ ms)

alternates : ℕ → List Message → Bool
alternates i [] = true
alternates i (m ∷ ms) = (m.role == expected_role i) && alternates (suc i) ms

gemma3_loop-alternates :
    (i : ℕ) (p : String) (ms : List Message) → is_ok (gemma3_loop i p ms) ≡ alternates i ms
unfolding gemma3_loop alternates
gemma3_loop-alternates i p [] = refl
gemma3_loop-alternates i p (m ∷ ms) = ground (arith, gemma3_loop-alternates (suc i) p ms)

mistral_loop-alternates :
    (i : ℕ) (s : String) (ms : List Message) → is_ok (mistral_loop i s ms) ≡ alternates i ms
unfolding mistral_loop alternates
mistral_loop-alternates i s [] = refl
mistral_loop-alternates i s (m ∷ ms) = ground (arith, mistral_loop-alternates (suc i) s ms)

qwen3_loop-alternates : (i : ℕ) (ms : List Message) → is_ok (qwen3_loop i ms) ≡ alternates i ms
unfolding qwen3_loop alternates
qwen3_loop-alternates i [] = refl
qwen3_loop-alternates i (m ∷ ms) = ground (arith, qwen3_loop-alternates (suc i) ms)

expected_even : (i : ℕ) → i % 2 ≡ 0 → expected_role i ≡ "user"
expected_even i h = ground arith

expected_odd : (i : ℕ) → i % 2 ≡ 1 → expected_role i ≡ "assistant"
expected_odd i h = ground arith

mutual
  unfolding alternates

  UserTurn-of_alternates :
      (i : ℕ) (ms : List Message) → i % 2 ≡ 0 → alternates i ms ≡ true → UserTurn ms
  UserTurn-of_alternates i [] h a = user_end
  UserTurn-of_alternates i (m ∷ ms) h a =
      user (ground (arith, eq_iff m.role (expected_role i), expected_even i h))
        (AssistantTurn-of_alternates (suc i) ms (omega arith) (ground arith))

  AssistantTurn-of_alternates :
      (i : ℕ) (ms : List Message) → i % 2 ≡ 1 → alternates i ms ≡ true → AssistantTurn ms
  AssistantTurn-of_alternates i [] h a = assistant_end
  AssistantTurn-of_alternates i (m ∷ ms) h a =
      assistant (ground (arith, eq_iff m.role (expected_role i), expected_odd i h))
        (UserTurn-of_alternates (suc i) ms (omega arith) (ground arith))

mutual
  unfolding alternates

  alternates_of_UserTurn :
      {ms : List Message} → UserTurn ms → (i : ℕ) → i % 2 ≡ 0 → alternates i ms ≡ true
  alternates_of_UserTurn user_end i h = refl
  alternates_of_UserTurn (user {m = m} {ms = ms} r t) i h = ground (
    arith,
    eq_iff m.role (expected_role i),
    expected_even i h,
    alternates_of_AssistantTurn t (suc i) (omega arith),
  )

  alternates_of_AssistantTurn :
      {ms : List Message} → AssistantTurn ms → (i : ℕ) → i % 2 ≡ 1 → alternates i ms ≡ true
  alternates_of_AssistantTurn assistant_end i h = refl
  alternates_of_AssistantTurn (assistant {m = m} {ms = ms} r t) i h = ground (
    arith,
    eq_iff m.role (expected_role i),
    expected_odd i h,
    alternates_of_UserTurn t (suc i) (omega arith),
  )

alternates_iff : (ms : List Message) → (alternates 0 ms ≡ true) ↔ UserTurn ms
alternates_iff ms = (UserTurn-of_alternates 0 ms refl, λ t. alternates_of_UserTurn t 0 refl)

open_nonempty :
    (ms : List Message) → is_empty (open_dialogue ms).dialogue ≡ false → is_empty ms ≡ false
unfolding open_dialogue
open_nonempty ms h = ground arith

shape : List Message → Bool
shape ms = not (is_empty (open_dialogue ms).dialogue) && alternates 0 (open_dialogue ms).dialogue

-- The same by way of the dialogue that is left.
abbrev HasDialogue : List Message → Type 0
HasDialogue ms =
    (is_empty (open_dialogue ms).dialogue ≡ false) × UserTurn (open_dialogue ms).dialogue

begins : (ms : List Message) → is_empty ms ≡ false → UserTurn ms → IsConversation ms
begins [] h t = cc
begins (m ∷ ms) h (user r t) = plain r t

instructs :
    (m : Message) (ms : List Message)
    → m.role ≡ "system"
    → is_empty ms ≡ false
    → UserTurn ms
    → IsConversation (m ∷ ms)
instructs m [] s h t = cc
instructs m (m' ∷ ms) s h (user r t) = instructed s r t

IsConversation-of_dialogue : (ms : List Message) → HasDialogue ms → IsConversation ms
unfolding open_dialogue
IsConversation-of_dialogue [] (h, t) = cc
IsConversation-of_dialogue (m ∷ ms) (h, t) = elim (Bool-cases (m.role == "system")) [
  | inl system ↦
      let left : (if m.role == "system"
            then record { system = some m; dialogue = ms }
            else record { system = none; dialogue = m ∷ ms })
          ≡ record { system = some m; dialogue = ms } =
        rw system refl in
      instructs m ms ((eq_iff m.role "system").0 system)
        (ap (λ (o : Opened). is_empty o.dialogue) (sym left) ∙ h)
        (subst (λ (o : Opened). UserTurn o.dialogue) left t)
  | inr other ↦
      let left : (if m.role == "system"
            then record { system = some m; dialogue = ms }
            else record { system = none; dialogue = m ∷ ms })
          ≡ record { system = none; dialogue = m ∷ ms } =
        rw other refl in
      begins (m ∷ ms) refl (subst (λ (o : Opened). UserTurn o.dialogue) left t)
]

user_is_not_system : (role : String) → role ≡ "user" → (role == "system") ≡ false
user_is_not_system role h = ap (λ r. r == "system") h

dialogue-of_IsConversation : (ms : List Message) → IsConversation ms → HasDialogue ms
unfolding open_dialogue
dialogue-of_IsConversation [] c = elim c [ ]
dialogue-of_IsConversation (m ∷ ms) (plain r t) = rw (user_is_not_system m.role r) (refl, user r t)
dialogue-of_IsConversation (m ∷ m' ∷ ms) (instructed s r t) =
    rw ((eq_iff m.role "system").1 s) (refl, user r t)

shape_iff : (ms : List Message) → (shape ms ≡ true) ↔ IsConversation ms
unfolding shape
shape_iff ms = (
  λ h. IsConversation-of_dialogue ms (ground (arith, alternates_iff (open_dialogue ms).dialogue)),
  λ h.
      let (full, turns) = dialogue-of_IsConversation ms h in
      ground (arith, full, (alternates_iff (open_dialogue ms).dialogue).1 turns),
)

gemma3-shape : (ms : List Message) → is_ok (gemma3_chat_prompt ms) ≡ shape ms
unfolding gemma3_chat_prompt shape
gemma3-shape ms = ground (
  arith,
  open_nonempty ms,
  gemma3_loop-alternates 0
      (system_text (λ content. trim_space content <> "\n\n") (open_dialogue ms).system)
      (open_dialogue ms).dialogue,
)

mistral-shape : (ms : List Message) → is_ok (mistral_nemo_instruct_prompt ms) ≡ shape ms
unfolding mistral_nemo_instruct_prompt shape
mistral-shape ms = ground (
  arith,
  open_nonempty ms,
  mistral_loop-alternates 0 (system_text (λ content. content) (open_dialogue ms).system)
      (open_dialogue ms).dialogue,
)

qwen3-shape : (ms : List Message) → is_ok (qwen3_non_thinking_prompt ms) ≡ shape ms
unfolding qwen3_non_thinking_prompt shape
qwen3-shape ms =
    ground (arith, open_nonempty ms, qwen3_loop-alternates 0 (open_dialogue ms).dialogue)

-- The Gemma, Mistral and Qwen 3 templates make a prompt of exactly the same messages: one turn at
-- least, by turns of the user and the assistant with the user first, after one system message or none.
pub strict_templates-IsConversation :
    (ms : List Message)
    → ((is_ok (gemma3_chat_prompt ms) ≡ true) ↔ IsConversation ms)
      × ((is_ok (mistral_nemo_instruct_prompt ms) ≡ true) ↔ IsConversation ms)
      × ((is_ok (qwen3_non_thinking_prompt ms) ≡ true) ↔ IsConversation ms)
strict_templates-IsConversation ms =
    rw (gemma3-shape, mistral-shape, qwen3-shape) (shape_iff ms, shape_iff ms, shape_iff ms)
