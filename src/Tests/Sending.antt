-- ===== src/Tests/Sending.antt =====
-- A request, its prompt for a model outside the catalogue, and a runner that answers with two chunks.
use yllmd.Base.{◌≡◌, ◌≤◌, refl, arith, ok, none, some, pos, true, false, List, [], ◌∷◌, All, length}
use yllmd.Wire.Bytes.{Bytes}
use yllmd.Wire.Utf8.{valid_utf8}
use yllmd.Wire.Text.{utf8_bytes}
use yllmd.Wire.Generate.{encode_runner_generate}
use yllmd.Wire.Generate.Payload.{parse_generate}
use yllmd.Wire.Frame.{RunnerCompletion}
use yllmd.Wire.Frame.Roundtrip.{frame_of, chunk, completed}
use yllmd.Wire.Stream.{FrameResult, read_runner_frames, encode_replies}
use yllmd.Protocol.{Input}
use yllmd.Registry.{LocalModel}
use yllmd.Runner.Options.{
  PreparedRunnerInput, prepare_runner_input, generate_of, effective_runner_options,
}
use yllmd.Runner.Sending.{AreFloats, accepted_sends}
use yllmd.Runner.Answer.{
  Arrival, came, stopped, RunnerEvent, started, delta, stdout_closed, finished, run,
}
use yllmd.Runner.Relay.{chunks_then, joined, deltas_then, arrivals_of, IsChunk, run-relays}
use yllmd.Tests.Data.{request_of, plain_settings, hello}
use yllmd.Tests.Requests.{accepts_test}

abbrev model : LocalModel
model = record {
  name = "own";
  config = record {
    catalog_id = "";
    model_path = "/models/own.gguf";
    aliases = [];
    enabled = none;
    backend = record { kind = "runner"; command = "yllm-runner"; transport = "stdio" };
    runtime = record { context_tokens = pos 4096; threads = pos 4; gpu_layers = pos 0 };
  };
  model_path = "/models/own.gguf";
}

abbrev input : Input
input = record { kind = "messages"; prompt = ""; messages = hello ∷ [] }

abbrev prepared : PreparedRunnerInput
prepared = record { prompt = "user: hello"; tokenization_mode = 0 }

prepared_test : prepare_runner_input "" none model input ≡ ok prepared
unfolding prepare_runner_input
prepared_test = refl

plain-AreFloats : AreFloats plain_settings
plain-AreFloats = record {
  temperature = omega arith;
  top_p = tt;
  min_p = tt;
  presence_penalty = tt;
  repeat_penalty = tt;
}

prompt_short : length (utf8_bytes "user: hello") ≤ 16777216
unfolding utf8_bytes
prompt_short = omega arith

accepted_sends_example :
    (payload : Bytes) × (encode_runner_generate (generate_of plain_settings prepared) ≡ ok payload)
    × (parse_generate payload ≡ some (generate_of plain_settings prepared))
    × (pos (generate_of plain_settings prepared).max_tokens
        ≡ (effective_runner_options plain_settings).max_tokens)
    × (pos (generate_of plain_settings prepared).top_k
        ≡ (effective_runner_options plain_settings).top_k)
accepted_sends_example =
    accepted_sends "" none model input (request_of "a") prepared accepts_test plain-AreFloats
      prepared_test prompt_short

abbrev pub texts : List Bytes
texts = (0x68 ∷ []) ∷ (0x69 ∷ []) ∷ []

abbrev pub ending : RunnerCompletion
ending = record { finish_reason = 0; input_tokens = 5; output_tokens = 2 }

pub texts_legal : All IsChunk texts
unfolding valid_utf8
texts_legal = ((refl, omega arith), ((refl, omega arith), tt))

run-relays_example :
    (results : List FrameResult) × (read_runner_frames
        (encode_replies (chunks_then texts ending) [])
      ≡ some results)
    × (run true true true true (arrivals_of results) ≡ (
      started ∷ deltas_then texts (RunnerEvent.completed "eos" (joined texts) 5 2 7),
      finished true,
    ))
run-relays_example =
    run-relays true texts ending texts_legal (omega arith, omega arith, omega arith)

-- One chunk, then the request is cancelled, and the runner completes after the Cancel message.
abbrev interrupted_run : List Arrival
interrupted_run =
    came (ok (frame_of (chunk (0x68 ∷ [])))) true
    ∷ stopped
    ∷ came (ok (frame_of (completed ending))) false
    ∷ []

interrupted_test :
    run true true true true interrupted_run ≡ (started ∷ delta (0x68 ∷ []) ∷ [], finished true)
unfolding run
interrupted_test = refl

-- The runner stops before its completion, and the client's context still lives.
abbrev closed_run : List Arrival
closed_run = came (ok (frame_of (chunk (0x68 ∷ [])))) true ∷ stdout_closed true ∷ []
