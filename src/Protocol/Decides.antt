-- ===== src/Protocol/Decides.antt =====
-- internal/protocol/protocol.go: `ValidateGenerate` beside `IsAccepted`.
use text.Mathlib.TextEquality.{eq_iff}
use yllmd.Base.{
  ℕ, suc, ◌+◌, ◌≤◌, ◌≡◌, ◌↔◌, refl, Option, none, some, List, [], ◌∷◌, ok, >>=-eq-ok, reject,
  reject-eq-ok, ltb→le, le→ltb, ap, ◌∙◌, length, ltb, All, string_eq, nat_eq, arith, ◌!=◌,
}
use yllmd.Wire.Bytes.{Bytes}
use yllmd.Wire.Generate.Limits.{IsStop, total_bytes}
use yllmd.Protocol.{
  wrong_type, too_many_stops, Request, Input, Output, ModelTarget, normalized_target,
  target_or_empty,
}
use yllmd.Protocol.Generation.{
  validate_input, validate_sampling, validate_stops, validate_output, validate_queue,
  validate_generate, input_of,
}
use yllmd.Protocol.Accepted.{
  Given, IsOutput, IsQueued, IsAccepted, validate_input_iff, normalized_target-ok_iff,
}
use yllmd.Protocol.Sampling.{validate_sampling-IsSampling, validate_sampling_of_IsSampling}

validate_stops_sound :
    (i total : ℕ) (stops : List Bytes)
    → total ≤ 65536
    → validate_stops i total stops ≡ ok tt
    → All IsStop stops × (total + total_bytes stops ≤ 65536)
unfolding validate_stops
validate_stops_sound i total [] b h = (tt, omega arith)
validate_stops_sound i total (stop ∷ stops) b h =
    ground (arith, validate_stops_sound (suc i) (total + length stop) stops)

validate_stops_complete :
    (i total : ℕ) (stops : List Bytes)
    → All IsStop stops
    → total + total_bytes stops ≤ 65536
    → validate_stops i total stops ≡ ok tt
unfolding validate_stops
validate_stops_complete i total [] v b = refl
validate_stops_complete i total (stop ∷ stops) v b =
    ground (arith, v.0, validate_stops_complete (suc i) (total + length stop) stops)

validate_output_iff : (o : Option Output) → (validate_output o ≡ ok tt) ↔ Given o IsOutput
unfolding validate_output
validate_output_iff none = (λ h. tt, λ h. refl)
validate_output_iff (some o) = (
  λ h. ground (
    arith,
    eq_iff o.format "json",
    eq_iff o.format "text",
    eq_iff o.format "raw",
    eq_iff o.delivery "stream",
    eq_iff o.delivery "complete",
  ),
  λ h. ground (
    arith,
    eq_iff o.format "json",
    eq_iff o.format "text",
    eq_iff o.format "raw",
    eq_iff o.delivery "stream",
    eq_iff o.delivery "complete",
  ),
)

validate_queue_iff : (r : Request) → (validate_queue r ≡ ok tt) ↔ IsQueued r
unfolding validate_queue
validate_queue_iff r = (
  λ h. ground (
    arith,
    eq_iff r.queue.policy "",
    eq_iff r.queue.policy "wait",
    eq_iff r.output_format "",
    eq_iff r.output_format "json",
    eq_iff r.output_format "text",
    eq_iff r.output_format "raw",
  ),
  λ h. ground (
    arith,
    eq_iff r.queue.policy "",
    eq_iff r.queue.policy "wait",
    eq_iff r.output_format "",
    eq_iff r.output_format "json",
    eq_iff r.output_format "text",
    eq_iff r.output_format "raw",
  ),
)

normalized_target-eq :
    (r : Request) (t : ModelTarget) → normalized_target r ≡ ok t → t ≡ target_or_empty r.target
unfolding normalized_target
normalized_target-eq r t h = ground arith

input_of_eq : (r : Request) (i : Input) → input_of r ≡ ok i → r.input ≡ some i
unfolding input_of
input_of_eq r i h = ground arith

validate_generate-IsAccepted : (r : Request) → validate_generate r ≡ ok tt → IsAccepted r
unfolding validate_generate
validate_generate-IsAccepted r h =
    let (u0, generate, h1) = >>=-eq-ok (reject (r.kind != "generate") wrong_type) _ h in
    let (input, present, h2) = >>=-eq-ok (input_of r) _ h1 in
    let (target, resolved, h3) = >>=-eq-ok (normalized_target r) _ h2 in
    let (u1, valid_input, h4) = >>=-eq-ok (validate_input input) _ h3 in
    let (u2, sampling, h5) = >>=-eq-ok (validate_sampling r.settings) _ h4 in
    let (u3, few, h6) = >>=-eq-ok (reject (ltb 64 (length r.settings.stop)) too_many_stops) _ h5 in
    let (u4, stops, h7) = >>=-eq-ok (validate_stops 0 0 r.settings.stop) _ h6 in
    let (u5, output, queue) = >>=-eq-ok (validate_output r.settings.output) _ h7 in
    let exact = normalized_target-eq r target resolved in
    let targeted = (normalized_target-ok_iff r).0 (resolved ∙ ap ok exact) in
    let bounded = validate_stops_sound 0 0 r.settings.stop (omega arith) stops in
    record {
      kind = ground (arith, eq_iff r.kind "generate");
      no_model = targeted.0;
      target = targeted.1;
      input = (input, input_of_eq r input present, (validate_input_iff input).0 valid_input);
      sampling = validate_sampling-IsSampling r.settings sampling;
      stops_few = ltb→le _ _ (reject-eq-ok _ _ few);
      stops_valid = bounded.0;
      stops_short = omega (arith, bounded.1);
      output = (validate_output_iff r.settings.output).0 output;
      queue = (validate_queue_iff r).0 queue;
    }

validate_generate_of_IsAccepted : (r : Request) → IsAccepted r → validate_generate r ≡ ok tt
unfolding validate_generate
validate_generate_of_IsAccepted r v =
    let (input, present, valid) = v.input in
    let found : input_of r ≡ ok input = unfold input_of in rw present in
    rw (
      (eq_iff r.kind "generate").1 v.kind,
      found,
      (normalized_target-ok_iff r).1 (v.no_model, v.target),
      (validate_input_iff input).1 valid,
      validate_sampling_of_IsSampling r.settings v.sampling,
      le→ltb 64 (length r.settings.stop) v.stops_few,
      validate_stops_complete 0 0 r.settings.stop v.stops_valid (omega (arith, v.stops_short)),
      (validate_output_iff r.settings.output).1 v.output,
      (validate_queue_iff r).1 v.queue,
    )

-- `ValidateGenerate` accepts a request exactly when every field meets its condition.
pub validate_generate-ok_iff : (r : Request) → (validate_generate r ≡ ok tt) ↔ IsAccepted r
validate_generate-ok_iff r = (validate_generate-IsAccepted r, validate_generate_of_IsAccepted r)
