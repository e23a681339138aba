-- ===== src/Download.antt =====
-- internal/download/downloader.go: fetching an artifact. What `net/http` and `net/url` answer, and the
-- hash, are parameters. Progress reports are left out.
pub mod Request
pub mod Checked
pub mod Measured
pub mod Sized
use yllmd.Base.{
  ℕ, suc, ◌+◌, ◌-◌, ◌*◌, ◌^◌, Bool, true, false, not, ◌&&◌, ◌||◌, String, ◌<>◌, Option, none, some,
  List, [], ◌∷◌, ◌++◌, Result, ok, err, ltb, length, take, reject, ◌==◌, ◌!=◌, nat_eq, string_eq,
  if◌then◌else◌,
}
use yllmd.Base.Text.{trim_space, to_lower}
use yllmd.Base.FilePath.{base}
use yllmd.Wire.Bytes.{Bytes}
use yllmd.Wire.Text.{utf8_bytes}
use yllmd.Catalog.{Artifact}
use yllmd.Download.Request.{
  HttpResponse, Outside, DownloadError, existing_differs, request_failed, body_broken, wrong_size,
  mismatch, bad_status, io, validate_download,
}
use yllmd.Disk.Paths.{NodePath}
use yllmd.Disk.Actions.{Node, file, IoError, Io, pure, raise, refuse, ◌>>=◌, ◌>>◌, lift, try}
use yllmd.Disk.{stat, remove, rename, read_file, write_file, mkdir_all}
use yllmd.Store.Files.{is_hex, is_not_exist}
use yllmd.Store.Layout.{components, under}

abbrev pub or_raise : {E A : Type 0} → Result E A → Io E A
or_raise (ok a) = pure a
or_raise (err e) = raise e

-- `info.Size()`
abbrev pub node_size : Outside → Node → ℕ
node_size w (file bytes) = length bytes
node_size w _ = w.folder_size

-- `strings.EqualFold` of a hash, which has hexadecimal digits alone.
unfoldable pub verify_file : Outside → NodePath → String → Io DownloadError (Unit {0})
verify_file w path expected = do
  bytes ← lift io (read_file path)
  refuse (to_lower (w.sha256_hex bytes) != to_lower (trim_space expected)) mismatch

abbrev pub sized : Outside → NodePath → ℕ → Result IoError Node → Io DownloadError ℕ
sized w path expected (err e) = if is_not_exist e then pure 0 else raise (io e)
sized w path expected (ok node) =
    if ltb expected (node_size w node)
    then lift io (remove path) >> pure 0
    else pure (node_size w node)

unfoldable pub partial_size : Outside → NodePath → ℕ → Io DownloadError ℕ
partial_size w path expected = do info ← try (stat path); sized w path expected info

-- `finalPath + suffix`
unfoldable pub with_suffix : NodePath → String → NodePath
with_suffix [] suffix = suffix ∷ []
with_suffix (a ∷ []) suffix = (a <> suffix) ∷ []
with_suffix (a ∷ b ∷ p) suffix = a ∷ with_suffix (b ∷ p) suffix

-- `filepath.Join` with a name that is its own base: `/` adds nothing.
abbrev pub final_path : String → Artifact → NodePath
final_path destination_dir a =
    let dir = components destination_dir in if a.filename == "/" then dir else under dir a.filename

abbrev pub or_differs : NodePath → Result DownloadError (Unit {0}) → Io DownloadError NodePath
or_differs final (ok _) = pure final
or_differs final (err e) = raise existing_differs

-- A file that is there already.
unfoldable pub existing_download : Outside → Artifact → NodePath → Node → Io DownloadError NodePath
existing_download w a final node =
    if node_size w node == a.size_bytes
    then try (verify_file w final a.sha256) >>= or_differs final
    else raise existing_differs

unfoldable pub complete_download :
    Outside → Artifact → NodePath → NodePath → Io DownloadError NodePath
complete_download w a partial final = do
  verify_file w partial a.sha256
  lift io (rename partial final)
  pure final

abbrev received : Option HttpResponse → Io DownloadError HttpResponse
received none = raise request_failed
received (some r) = pure r

-- What the partial file holds: appended to from an offset, or written anew.
unfoldable pub kept_bytes : ℕ → NodePath → Io DownloadError Bytes
kept_bytes offset partial = if offset == 0 then pure [] else lift io (read_file partial)

unfoldable pub fetch : Outside → Artifact → NodePath → NodePath → ℕ → Io DownloadError NodePath
fetch w a partial final offset = do
  response ← received (w.get a.url offset)
  refuse ((response.status != 200) && (response.status != 206)) (bad_status response.status)
  let from = if response.status == 200 then 0 else offset
  kept ← kept_bytes from partial
  lift io (write_file partial (kept ++ take (suc (a.size_bytes - from)) response.body))
  refuse (not response.complete) body_broken
  info ← lift io (stat partial)
  refuse (node_size w info != a.size_bytes) wrong_size
  complete_download w a partial final

unfoldable pub resume : Outside → Artifact → NodePath → Io DownloadError NodePath
resume w a final = do
  let partial = with_suffix final ".part"
  offset ← partial_size w partial a.size_bytes
  if offset == a.size_bytes
      then complete_download w a partial final
      else fetch w a partial final offset

abbrev pub resume_if_missing :
    Outside → Artifact → NodePath → Result IoError Node → Io DownloadError NodePath
resume_if_missing w a final (ok node) = existing_download w a final node
resume_if_missing w a final (err e) = if is_not_exist e then resume w a final else raise (io e)

unfoldable pub download : Outside → Bool → Artifact → String → Io DownloadError NodePath
download w allow_http a destination_dir = do
  or_raise (validate_download w allow_http a destination_dir)
  lift io (mkdir_all (components destination_dir))
  let final = final_path destination_dir a
  info ← try (stat final)
  resume_if_missing w a final info
