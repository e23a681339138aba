-- ===== src/Tests/Messages.antt =====
-- Messages to and from a runner: a writer that takes two bytes at a time, and a run of replies.
use yllmd.Base.{
  err, ◌≡◌, ◌≤◌, ◌↔◌, refl, arith, ok, err, some, List, [], ◌∷◌, ◌++◌, length, take, false,
}
use yllmd.Wire.Bytes.{Bytes, le_bytes}
use yllmd.Wire.Utf8.{valid_utf8}
use yllmd.Wire.Generate.{RunnerGenerate, generate_payload, encode_runner_generate}
use yllmd.Wire.Generate.Limits.{IsEncodable, encode_runner_generate-ok_iff}
use yllmd.Wire.Generate.Payload.{IsTyped, parse_generate, parse_generate-generate_payload}
use yllmd.Wire.Writer.{
  Writer, IsLawful, write_all, write_runner_generate, runner_message_generate, Delivers,
}
use yllmd.Wire.Writer.Delivery.{envelope, write_all-Delivers, write_runner_generate-Delivers}
use yllmd.Wire.Frame.{read_runner_protocol_frame}
use yllmd.Wire.Frame.Roundtrip.{
  Reply, completed, encode_reply, frame_of, IsLegal, read_runner_protocol_frame-encode_reply,
}
use yllmd.Wire.Stream.{FrameResult, read_runner_frames, read_runner_frames-total}

abbrev hi : RunnerGenerate
hi = record {
  prompt = 0x68 ∷ 0x69 ∷ [];
  tokenization_mode = 1;
  max_tokens = 16;
  temperature = 0x3fe9_9999_9999_999a;
  top_p = 0x3fee_6666_6666_6666;
  top_k = 40;
  min_p = 0;
  presence_penalty = 0;
  repeat_penalty = 0x3ff0_0000_0000_0000;
  seed = 7;
  stops = (0x0a ∷ []) ∷ [];
}

hi-IsEncodable : IsEncodable hi
unfolding valid_utf8 le_bytes
hi-IsEncodable = (encode_runner_generate-ok_iff hi).0 (unfold encode_runner_generate in refl)

hi-IsTyped : IsTyped hi
hi-IsTyped = record {
  mode = omega arith;
  max_tokens = omega arith;
  temperature = omega arith;
  top_p = omega arith;
  top_k = omega arith;
  min_p = omega arith;
  presence_penalty = omega arith;
  repeat_penalty = omega arith;
  seed = omega arith;
  stop_count = omega arith;
  stop_sizes = (omega arith, tt);
}

encode_runner_generate-ok_iff_example :
    (encode_runner_generate hi ≡ ok (generate_payload hi)) ↔ IsEncodable hi
encode_runner_generate-ok_iff_example = encode_runner_generate-ok_iff hi

parse_generate-generate_payload_example : parse_generate (generate_payload hi) ≡ some hi
parse_generate-generate_payload_example = parse_generate-generate_payload hi hi-IsTyped

-- A pipe that takes at most two bytes of each write.
abbrev narrow : Writer
narrow = record {
  State = Bytes;
  sent = λ s. s;
  write = λ s bs. (s ++ take 2 bs, length (take 2 bs), false);
}

narrow_taken : (bs : Bytes) → length (take 2 bs) ≤ length bs
narrow_taken [] = omega arith
narrow_taken (a ∷ []) = omega arith
narrow_taken (a ∷ b ∷ bs) = omega arith

narrow_sends : (s bs : Bytes) → s ++ take 2 bs ≡ s ++ take (length (take 2 bs)) bs
narrow_sends s [] = refl
narrow_sends s (a ∷ []) = refl
narrow_sends s (a ∷ b ∷ bs) = refl

narrow-IsLawful : IsLawful narrow
narrow-IsLawful = record { taken = λ s bs. narrow_taken bs; sends = narrow_sends }

write_all_test : write_all narrow [] (1 ∷ 2 ∷ 3 ∷ []) ≡ (1 ∷ 2 ∷ 3 ∷ [], ok tt)
unfolding write_all
write_all_test = refl

write_all-Delivers_example :
    Delivers narrow (9 ∷ []) (1 ∷ 2 ∷ 3 ∷ []) (write_all narrow (9 ∷ []) (1 ∷ 2 ∷ 3 ∷ []))
write_all-Delivers_example = write_all-Delivers narrow narrow-IsLawful (9 ∷ []) (1 ∷ 2 ∷ 3 ∷ [])

write_runner_generate-Delivers_example :
    Delivers narrow []
      (envelope runner_message_generate (generate_payload hi))
      (write_runner_generate narrow [] hi)
write_runner_generate-Delivers_example =
    write_runner_generate-Delivers narrow narrow-IsLawful [] hi hi-IsEncodable

abbrev done : Reply
done = completed (record { finish_reason = 1; input_tokens = 3; output_tokens = 260 })

done-IsLegal : IsLegal done
done-IsLegal = (omega arith, omega arith, omega arith)

read_runner_protocol_frame-encode_reply_example :
    read_runner_protocol_frame (encode_reply done ++ (0x10 ∷ [])) ≡ ok (frame_of done, 0x10 ∷ [])
read_runner_protocol_frame-encode_reply_example =
    read_runner_protocol_frame-encode_reply done (0x10 ∷ []) done-IsLegal

read_runner_frames-total_example :
    (results : List FrameResult) × (read_runner_frames (0x01 ∷ 0x05 ∷ []) ≡ some results)
read_runner_frames-total_example = read_runner_frames-total (0x01 ∷ 0x05 ∷ [])
