-- ===== src/Tests/Configured.antt =====
-- The configuration of the routes is accepted.
use yllmd.Base.{◌≡◌, refl, true, All, []}
use yllmd.Base.Dict.{lookup, has_key}
use yllmd.Config.Validation.{validate, identifier_pattern}
use yllmd.Config.Routes.{HasDefault, IsGroup, validate-IsGroup}
use yllmd.Tests.Routes.{config}

identifier_test : identifier_pattern "qwen2.5-7b" ≡ true
unfolding identifier_pattern
identifier_test = refl

validate_test : validate (config "") ≡ []
unfolding validate lookup has_key
validate_test = refl

validate-IsGroup_example :
    HasDefault (config "") × All (IsGroup (config "").models) (config "").routing.groups
validate-IsGroup_example = validate-IsGroup (config "") validate_test
