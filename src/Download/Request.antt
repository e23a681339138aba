-- ===== src/Download/Request.antt =====
-- internal/download/downloader.go: what a download is asked for, and which requests are refused.
use yllmd.Base.{
  ℕ, ◌-◌, ◌^◌, Bool, not, ◌&&◌, ◌||◌, String, Option, none, some, Result, ok, err, ltb, length,
  reject, reject-then, >>-eq-ok, false, ◌≡◌, ◌>>◌, ◌==◌, ◌!=◌, nat_eq, string_eq, if◌then◌else◌,
}
use yllmd.Base.Text.{trim_space}
use yllmd.Base.FilePath.{base}
use yllmd.Wire.Bytes.{Bytes}
use yllmd.Wire.Text.{utf8_bytes}
use yllmd.Catalog.{Artifact}
use yllmd.Disk.Actions.{IoError}
use yllmd.Store.Files.{is_hex}

pub record Url : Type 0 where
  pub scheme : String
  pub host : String

-- The body as far as it came, and whether it came to its end.
pub record HttpResponse : Type 0 where
  pub status : ℕ
  pub body : Bytes
  pub complete : Bool

-- `get url offset` is `client.Do` with a range from the offset, if it is not 0.
pub record Outside : Type 0 where
  pub parse_url : String → Option Url
  pub get : String → ℕ → Option HttpResponse
  pub sha256_hex : Bytes → String
  pub folder_size : ℕ

pub data DownloadError : Type 0 where
  destination_required unsafe_filename bad_url https_required host_required : DownloadError
  size_required size_too_large bad_checksum : DownloadError
  existing_differs request_failed body_broken wrong_size mismatch : DownloadError
  bad_status : ℕ → DownloadError
  io : IoError → DownloadError

-- `clientCopy.CheckRedirect`; `previous` is the policy that the client had, if any.
unfoldable pub check_redirect :
    Bool → Option (Result DownloadError (Unit {0})) → String → ℕ → Result DownloadError (Unit {0})
check_redirect allow_http previous scheme via =
    if (scheme != "https") && not (allow_http && (scheme == "http"))
    then err https_required
    else elim previous [
      | some answer ↦ answer
      | none ↦ if ltb via 10 then ok tt else err request_failed
    ]

abbrev check_url : Bool → Option Url → Result DownloadError (Unit {0})
check_url allow_http none = err bad_url
check_url allow_http (some u) = do
  reject ((u.scheme != "https") && not (allow_http && (u.scheme == "http"))) https_required
  reject (u.host == "") host_required

unfoldable pub validate_download :
    Outside → Bool → Artifact → String → Result DownloadError (Unit {0})
validate_download w allow_http a destination_dir = do
  let checksum = trim_space a.sha256
  reject (destination_dir == "") destination_required
  reject ((a.filename == "") || (a.filename != base a.filename) || (a.filename == "."))
      unsafe_filename
  check_url allow_http (w.parse_url a.url)
  reject (a.size_bytes == 0) size_required
  reject (ltb (2 ^ 63 - 2) a.size_bytes) size_too_large
  reject (not (is_hex checksum) || (length (utf8_bytes checksum) != 64)) bad_checksum

-- The size of an artifact that may be downloaded.
pub validate_download-size :
    (w : Outside) (allow_http : Bool) (a : Artifact) (destination_dir : String)
    → validate_download w allow_http a destination_dir ≡ ok tt
    → ((a.size_bytes == 0) ≡ false) × (ltb (2 ^ 63 - 2) a.size_bytes ≡ false)
unfolding validate_download
validate_download-size w allow_http a destination_dir h =
    let checksum = trim_space a.sha256 in
    let last : Result DownloadError (Unit {0}) =
      reject (not (is_hex checksum) || (length (utf8_bytes checksum) != 64)) bad_checksum in
    let sizes = reject (ltb (2 ^ 63 - 2) a.size_bytes) size_too_large >> last in
    let rest = reject (a.size_bytes == 0) size_required >> sizes in
    let address = check_url allow_http (w.parse_url a.url) in
    let unsafe = (a.filename == "") || (a.filename != base a.filename) || (a.filename == ".") in
    let (_, h1) =
      (reject-then (destination_dir == "") destination_required
          (reject unsafe unsafe_filename >> (address >> rest))).0
        h in
    let h2 =
      >>-eq-ok address rest ((reject-then unsafe unsafe_filename (address >> rest)).0 h1).1 in
    let (filled, h3) = (reject-then (a.size_bytes == 0) size_required sizes).0 h2 in
    (filled, ((reject-then (ltb (2 ^ 63 - 2) a.size_bytes) size_too_large last).0 h3).0)
