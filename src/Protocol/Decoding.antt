-- ===== src/Protocol/Decoding.antt =====
-- internal/protocol/protocol.go: `DecodeRequest`. What `json.Unmarshal` makes of a line is given:
-- the request, and the names of the line's top-level fields.
use yllmd.Base.{
  String, Option, none, some, List, Result, ok, err, ◌>>=◌, ◌>>◌, reject, contains, ◌==◌, string_eq,
  if◌then◌else◌,
}
use yllmd.Wire.Bytes.{Bytes}
use yllmd.Protocol.{
  Request, RequestError, type_required, id_required, uses_model_type, uses_level, malformed_json,
  message_generate,
}

pub record Json : Type 0 where
  pub unmarshal_request : Bytes → Option Request
  pub unmarshal_fields : Bytes → Option (List String)

abbrev or_malformed : {A : Type 0} → Option A → Result RequestError A
or_malformed none = err malformed_json
or_malformed (some a) = ok a

-- Fields that a generation does not take any more.
unfoldable pub check_fields : List String → Result RequestError (Unit {0})
check_fields fields = do
  reject (contains fields "model_type") uses_model_type
  reject (contains fields "level") uses_level

module _ (json : Json) where
  unfoldable pub decode_request : Bytes → Result RequestError Request
  unfolding check_fields
  decode_request line = do
    req ← or_malformed (json.unmarshal_request line)
    reject (req.kind == "") type_required
    reject (req.id == "") id_required
    (if req.kind == message_generate
        then or_malformed (json.unmarshal_fields line) >>= check_fields
        else ok tt)
    ok req
