-- ===== src/Tests/Starting.antt =====
-- A request whose model does not start, with one stand-in that does.
use yllmd.Base.{◌≡◌, refl, Bool, true, false, ok, some, [], ◌∷◌, ◌==◌, string_eq}
use yllmd.Base.Dict.{lookup, insert}
use yllmd.Registry.{LocalModel, resolve, new_registry}
use yllmd.Runner.Startup.{GenerateRequest, generate}
use yllmd.Runner.Choice.{Serves, generate-Serves}
use yllmd.Tests.Routes.{registry, large, small}

abbrev only_large : LocalModel → Bool
only_large m = m.name == "large"

abbrev request : GenerateRequest
request = record {
  model = "small";
  fallback = false;
  fallback_from = "";
  fallback_models = "big" ∷ [];
}

abbrev passed_on : GenerateRequest
passed_on = record request { model = "large"; fallback = true; fallback_from = "small" }

generate_test :
    generate registry only_large small (some "small2") request
    ≡ (some "large", ok (passed_on, large))
unfolding generate resolve new_registry lookup insert
generate_test = refl

generate-Serves_example :
    Serves registry only_large small
      ("small" ∷ "big" ∷ [])
      (some "small2")
      true
      request
      (some "large")
      passed_on
      large
generate-Serves_example =
    generate-Serves registry only_large small (some "small2") (some "large") request passed_on large
      generate_test
