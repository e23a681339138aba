-- ===== src/Tests/Data.antt =====
-- Requests and messages for the tests.
use yllmd.Base.{String, none, some, [], ◌∷◌, true, pos}
use yllmd.Protocol.{Request, Message, GenerationSettings, no_target}

abbrev pub plain_settings : GenerationSettings
plain_settings = record {
  temperature = some 0x3ff0_0000_0000_0000;
  top_p = none;
  max_tokens = some (pos 16);
  top_k = none;
  min_p = none;
  presence_penalty = none;
  repeat_penalty = none;
  seed = some 7;
  stop = (0x0a ∷ []) ∷ [];
  stream = some true;
  output = some (record { format = "json"; delivery = "stream" });
}

abbrev pub hello : Message
hello = record { role = "user"; content = "hello" }

abbrev pub answer : Message
answer = record { role = "assistant"; content = "hi" }

abbrev pub brief : Message
brief = record { role = "system"; content = "be brief" }

-- A generation with that id, for the default target.
abbrev pub request_of : String → Request
request_of id = record {
  kind = "generate";
  id = id;
  action = "";
  provider = "";
  target = some (record no_target { group = "chat" });
  model = "";
  version = "";
  file = "";
  sha256 = "";
  activate = none;
  license_accepted = true;
  stream = none;
  output_format = "";
  input = some (record { kind = "messages"; prompt = ""; messages = hello ∷ [] });
  settings = plain_settings;
  queue = record { policy = "wait"; timeout_ms = pos 500 };
}
