-- ===== src/Runner/Prompts.antt =====
-- internal/providers/local/runner.go: the chat templates that turn messages into one prompt. The date
-- that one of them writes is an argument.
pub mod Turns
use yllmd.Base.{
  ℕ, zero, suc, ◌+◌, ◌-◌, ◌%◌, Bool, true, false, ◌&&◌, String, ◌<>◌, Option, none, some, List, [],
  ◌∷◌, Result, ok, err, ◌>>=◌, ◌>>◌, reject, length, is_empty, ◌==◌, ◌!=◌, string_eq, nat_eq,
  if◌then◌else◌,
}
use yllmd.Base.Text.{trim_space}
use yllmd.Protocol.{Message}

pub data PromptError : Type 0 where
  messages_missing user_message_missing : PromptError
  must_alternate : ℕ → String → PromptError
  template_unsupported : String → String → PromptError
  catalog_invalid : PromptError

plain_loop : String → List Message → String
plain_loop prompt [] = prompt
plain_loop prompt (m ∷ ms) =
    plain_loop ((if prompt == "" then "" else prompt <> "\n") <> m.role <> ": " <> m.content) ms

unfoldable pub plain_messages_prompt : List Message → String
unfolding plain_loop
plain_messages_prompt messages = plain_loop "" messages

-- One `<|im_start|>` turn, as two templates write it.
abbrev im_turn : Message → String
im_turn m = "<|im_start|>" <> m.role <> "\n" <> m.content <> "<|im_end|>\n"

unfoldable pub qwen_chat_ml_prompt : List Message → String
qwen_chat_ml_prompt [] = "<|im_start|>assistant\n"
qwen_chat_ml_prompt (m ∷ ms) = im_turn m <> qwen_chat_ml_prompt ms

unfoldable pub phi4_chat_prompt : List Message → String
phi4_chat_prompt [] = "<|assistant|>"
phi4_chat_prompt (m ∷ ms) = "<|" <> m.role <> "|>" <> m.content <> "<|end|>" <> phi4_chat_prompt ms

-- The role that message `i` of a dialogue must have.
abbrev pub expected_role : ℕ → String
expected_role i = if (i % 2) == 1 then "assistant" else "user"

gemma3_loop : ℕ → String → List Message → Result PromptError String
gemma3_loop i first_user_prefix [] = ok "<start_of_turn>model\n"
gemma3_loop i first_user_prefix (m ∷ ms) = do
  reject (m.role != expected_role i) (must_alternate i m.role)
  let output_role = if m.role == "assistant" then "model" else m.role
  rest ← gemma3_loop (suc i) first_user_prefix ms
  ok (
      "<start_of_turn>"
      <> output_role
      <> "\n"
      <> (if i == 0 then first_user_prefix else "")
      <> trim_space m.content
      <> "<end_of_turn>\n"
      <> rest)

-- A dialogue after its optional system message.
pub record Opened : Type 0 where
  pub system : Option Message
  pub dialogue : List Message

-- `if messages[0].Role == "system"`, with that message taken off.
unfoldable pub open_dialogue : List Message → Opened
open_dialogue [] = record { system = none; dialogue = [] }
open_dialogue (m ∷ ms) =
    if m.role == "system"
    then record { system = some m; dialogue = ms }
    else record { system = none; dialogue = m ∷ ms }

-- The content of the system message under `f`, or an empty text.
abbrev system_text : (String → String) → Option Message → String
system_text f none = ""
system_text f (some m) = f m.content

unfoldable pub gemma3_chat_prompt : List Message → Result PromptError String
unfolding gemma3_loop open_dialogue
gemma3_chat_prompt messages = do
  reject (is_empty messages) messages_missing
  let opened = open_dialogue messages
  let first_user_prefix = system_text (λ content. trim_space content <> "\n\n") opened.system
  reject (is_empty opened.dialogue) user_message_missing
  turns ← gemma3_loop 0 first_user_prefix opened.dialogue
  ok ("<bos>" <> turns)

llama3_loop : List Message → String
llama3_loop [] = "<|start_header_id|>assistant<|end_header_id|>\n\n"
llama3_loop (m ∷ ms) =
    "<|start_header_id|>"
    <> m.role
    <> "<|end_header_id|>\n\n"
    <> trim_space m.content
    <> "<|eot_id|>"
    <> llama3_loop ms

unfoldable pub llama3_instruct_prompt : List Message → String
unfolding llama3_loop
llama3_instruct_prompt messages = "<|begin_of_text|>" <> llama3_loop messages

granite3_loop : List Message → String
granite3_loop [] = "<|start_of_role|>assistant<|end_of_role|>"
granite3_loop (m ∷ ms) =
    "<|start_of_role|>"
    <> m.role
    <> "<|end_of_role|>"
    <> m.content
    <> "<|end_of_text|>\n"
    <> granite3_loop ms

abbrev granite3_system : String → Option Message → String
granite3_system today none =
    " Knowledge Cutoff Date: April 2024.\n Today's Date: " <> today
    <> ". You are Granite, developed by IBM. You are a helpful AI assistant."
granite3_system today (some m) = m.content

unfoldable pub granite3_chat_prompt : List Message → String → Result PromptError String
unfolding granite3_loop open_dialogue
granite3_chat_prompt messages today = do
  reject (is_empty messages) messages_missing
  let opened = open_dialogue messages
  ok (
      "<|start_of_role|>system<|end_of_role|>"
      <> granite3_system today opened.system
      <> "<|end_of_text|>\n"
      <> granite3_loop opened.dialogue)

-- One message of the Mistral template; `last` is `i == len(messages)-1`.
abbrev mistral_turn : String → Bool → Message → String
mistral_turn system_message last m =
    if m.role == "user"
    then "[INST]"
      <> (if (system_message != "") && last then system_message <> "\n\n" else "")
      <> m.content
      <> "[/INST]"
    else m.content <> "</s>"

mistral_loop : ℕ → String → List Message → Result PromptError String
mistral_loop i system_message [] = ok ""
mistral_loop i system_message (m ∷ ms) = do
  reject (m.role != expected_role i) (must_alternate i m.role)
  rest ← mistral_loop (suc i) system_message ms
  ok (mistral_turn system_message (is_empty ms) m <> rest)

unfoldable pub mistral_nemo_instruct_prompt : List Message → Result PromptError String
unfolding mistral_loop open_dialogue
mistral_nemo_instruct_prompt messages = do
  reject (is_empty messages) messages_missing
  let opened = open_dialogue messages
  reject (is_empty opened.dialogue) user_message_missing
  turns ← mistral_loop 0 (system_text (λ content. content) opened.system) opened.dialogue
  ok ("<s>" <> turns)

-- `i` counts from the first message after the system message.
qwen3_loop : ℕ → List Message → Result PromptError String
qwen3_loop i [] = ok "<|im_start|>assistant\n<think>\n\n</think>\n\n"
qwen3_loop i (m ∷ ms) = do
  reject (m.role != expected_role i) (must_alternate i m.role)
  rest ← qwen3_loop (suc i) ms
  ok (im_turn m <> rest)

abbrev qwen3_system : Option Message → String
qwen3_system none = ""
qwen3_system (some m) = "<|im_start|>system\n" <> m.content <> "<|im_end|>\n"

unfoldable pub qwen3_non_thinking_prompt : List Message → Result PromptError String
unfolding qwen3_loop open_dialogue
qwen3_non_thinking_prompt messages = do
  reject (is_empty messages) messages_missing
  let opened = open_dialogue messages
  reject (is_empty opened.dialogue) user_message_missing
  turns ← qwen3_loop 0 opened.dialogue
  ok (qwen3_system opened.system <> turns)

unfoldable pub render_runner_messages :
    String → String → String → List Message → Result PromptError String
unfolding plain_messages_prompt
render_runner_messages today template catalog_id messages =
    if template == ""
    then ok (plain_messages_prompt messages)
    else if template == "qwen2.5-chatml"
    then ok (qwen_chat_ml_prompt messages)
    else if template == "phi4-chat"
    then ok (phi4_chat_prompt messages)
    else if template == "gemma3-chat"
    then gemma3_chat_prompt messages
    else if template == "llama3-instruct"
    then ok (llama3_instruct_prompt messages)
    else if template == "granite3-chat"
    then granite3_chat_prompt messages today
    else if template == "mistral-nemo-instruct"
    then mistral_nemo_instruct_prompt messages
    else if template == "qwen3-nonthinking-chatml"
    then qwen3_non_thinking_prompt messages
    else err (template_unsupported catalog_id template)
