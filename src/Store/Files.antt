-- ===== src/Store/Files.antt =====
-- internal/storage/models.go: the files that the store reads and writes.
use Prim.Native.Char.{Char, code}
use yllmd.Base.{
  ℕ, ◌+◌, ◌%◌, ◌^◌, Bool, true, false, not, ◌&&◌, ◌||◌, String, ◌<>◌, Option, none, some, List, [],
  ◌∷◌, ◌++◌, leb, length, ◌!=◌, nat_eq, string_eq,
}
use yllmd.Base.Text.{trim_space, to_lower}
use yllmd.Wire.Text.{utf8_bytes}
use yllmd.Disk.Paths.{NodePath}
use yllmd.Disk.Actions.{IoError, not_exist, Io, pure, raise, refuse, ◌>>=◌, ◌>>◌, lift}
use yllmd.Disk.{read_file, write_file, create_file, walk_sizes}
use yllmd.Store.{
  Manifest, StoreError, bad_length, bad_hex, bad_checksum, bad_json, io, Codec, Encodings,
}

-- A digit of `hex.DecodeString`.
abbrev is_hex_digit : Char → Bool
is_hex_digit c =
    let n = code c in (leb 48 n && leb n 57) || (leb 65 n && leb n 70) || (leb 97 n && leb n 102)

unfoldable pub is_hex : String → Bool
is_hex String.[] = true
is_hex (String.◌∷◌ c s) = is_hex_digit c && is_hex s

abbrev pub is_not_exist : IoError → Bool
is_not_exist not_exist = true
is_not_exist _ = false

-- How a checksum is written.
unfoldable pub normal_checksum : String → String
normal_checksum s = to_lower (trim_space s)

unfoldable pub verify_sha256 : Encodings → NodePath → String → Io StoreError (Unit {0})
verify_sha256 e path expected_hex = do
  let expected = normal_checksum expected_hex
  refuse (length (utf8_bytes expected) != 64) bad_length
  refuse (not (is_hex expected)) bad_hex
  bytes ← lift io (read_file path)
  refuse (e.sha256_hex bytes != expected) bad_checksum

unfoldable pub copy_file : NodePath → NodePath → Io IoError (Unit {0})
copy_file dst src = do bytes ← read_file src; create_file dst bytes

unfoldable pub write_json : {A : Type 0} → Codec A → NodePath → A → Io IoError (Unit {0})
write_json c path value = write_file path (c.encode value ++ (10 ∷ []))

abbrev pub decoded : {A : Type 0} → Option A → Io StoreError A
decoded none = raise bad_json
decoded (some a) = pure a

-- `os.ReadFile` and `json.Unmarshal`
unfoldable pub read_json : {A : Type 0} → Codec A → NodePath → Io StoreError A
read_json c path = do bytes ← lift io (read_file path); decoded (c.decode bytes)

unfoldable pub write_manifest : Encodings → NodePath → Manifest → Io IoError (Unit {0})
write_manifest e path manifest = write_json e.manifests path manifest

unfoldable pub read_manifest : Encodings → NodePath → Io StoreError Manifest
read_manifest e path = read_json e.manifests path

unfoldable pub write_checksum : NodePath → String → Io IoError (Unit {0})
write_checksum path checksum =
    write_file path (utf8_bytes (normal_checksum checksum <> "  model.gguf\n"))

unfoldable pub sum_wrapped : ℕ → List ℕ → ℕ
sum_wrapped total [] = total
sum_wrapped total (size ∷ sizes) = sum_wrapped ((total + size) % 2 ^ 64) sizes

unfoldable pub directory_size : NodePath → Io IoError ℕ
directory_size root = do sizes ← walk_sizes root; pure (sum_wrapped 0 sizes)
