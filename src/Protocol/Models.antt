-- ===== src/Protocol/Models.antt =====
-- internal/protocol/protocol.go: the validation of the actions on models.
use yllmd.Base.{Bool, String, Result, ◌>>◌, reject, ◌==◌, ◌!=◌, string_eq}
use yllmd.Base.Text.{trim_space}
use yllmd.Protocol.{
  Request, RequestError, wrong_type, wrong_action, model_required, version_required, file_required,
  sha256_required, message_models,
}

-- `strings.TrimSpace(s) == ""`
unfoldable pub is_blank : String → Bool
unfolding trim_space
is_blank s = trim_space s == ""

abbrev pub action_is : Request → String → Result RequestError (Unit {0})
action_is r action = do
  reject (r.kind != message_models) wrong_type
  reject (r.action != action) wrong_action

unfoldable pub validate_model_install : Request → Result RequestError (Unit {0})
unfolding is_blank
validate_model_install r = do
  action_is r "install"
  reject (is_blank r.model) model_required
  reject (is_blank r.version) version_required
  reject (is_blank r.file) file_required
  reject (is_blank r.sha256) sha256_required

unfoldable pub validate_catalog_model_action : Request → String → Result RequestError (Unit {0})
unfolding is_blank
validate_catalog_model_action r action = do
  action_is r action
  reject (is_blank r.model) model_required

unfoldable pub validate_model_download : Request → Result RequestError (Unit {0})
unfolding validate_catalog_model_action
validate_model_download r = validate_catalog_model_action r "download"

unfoldable pub validate_model_update : Request → Result RequestError (Unit {0})
unfolding validate_catalog_model_action
validate_model_update r = validate_catalog_model_action r "update"

unfoldable pub validate_model_delete : Request → Result RequestError (Unit {0})
unfolding is_blank
validate_model_delete r = do action_is r "delete"; reject (is_blank r.model) model_required

unfoldable pub validate_model_rollback : Request → Result RequestError (Unit {0})
unfolding is_blank
validate_model_rollback r = do action_is r "rollback"; reject (is_blank r.model) model_required

unfoldable pub validate_model_activate : Request → Result RequestError (Unit {0})
unfolding is_blank
validate_model_activate r = do
  action_is r "activate"
  reject (is_blank r.model) model_required
  reject (is_blank r.version) version_required

unfoldable pub validate_model_versions : Request → Result RequestError (Unit {0})
unfolding is_blank
validate_model_versions r = do action_is r "versions"; reject (is_blank r.model) model_required
