-- ===== src/Tests/Dialogues.antt =====
-- A conversation after a system message, and prompts of it.
use yllmd.Base.{◌≡◌, ◌↔◌, refl, true, ok, err, is_ok, [], ◌∷◌, List}
use yllmd.Protocol.{Message}
use yllmd.Runner.Prompts.{
  qwen3_non_thinking_prompt, gemma3_chat_prompt, mistral_nemo_instruct_prompt, must_alternate,
}
use yllmd.Runner.Prompts.Turns.{IsConversation, strict_templates-IsConversation}
use yllmd.Tests.Data.{hello, answer, brief}

abbrev dialogue : List Message
dialogue = brief ∷ hello ∷ answer ∷ hello ∷ []

qwen3_test :
    qwen3_non_thinking_prompt (brief ∷ hello ∷ [])
    ≡ ok
        "<|im_start|>system\nbe brief<|im_end|>\n<|im_start|>user\nhello<|im_end|>\n<|im_start|>assistant\n<think>\n\n</think>\n\n"
unfolding qwen3_non_thinking_prompt
qwen3_test = refl

mistral_test :
    mistral_nemo_instruct_prompt dialogue
    ≡ ok "<s>[INST]hello[/INST]hi</s>[INST]be brief\n\nhello[/INST]"
unfolding mistral_nemo_instruct_prompt
mistral_test = refl

alternate_test : gemma3_chat_prompt (answer ∷ []) ≡ err (must_alternate 0 "assistant")
unfolding gemma3_chat_prompt
alternate_test = refl

strict_templates-IsConversation_example :
    ((is_ok (gemma3_chat_prompt dialogue) ≡ true) ↔ IsConversation dialogue)
    × ((is_ok (mistral_nemo_instruct_prompt dialogue) ≡ true) ↔ IsConversation dialogue)
    × ((is_ok (qwen3_non_thinking_prompt dialogue) ≡ true) ↔ IsConversation dialogue)
strict_templates-IsConversation_example = strict_templates-IsConversation dialogue
