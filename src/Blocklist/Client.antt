-- ===== src/Blocklist/Client.antt =====
-- internal/blocklist/client.go: the refresh of the list. Requests, JSON, gzip and the files are
-- parameters; what the client makes of them is here.
use tdns.Base.{
  ltb, eqb, if◌then◌else◌, nat_eq, Text, text_eq, ◌==◌, length, is_empty, ℕ, ◌+◌, ◌⊎◌, inl, inr,
  Bool, true, false, not, ◌&&◌, ◌||◌, Option, none, some,
}
use tdns.Base.Strings.{txt, to_lower, trim_space}
use tdns.Blocklist.Types.{
  RefreshKind, kind_invalid, kind_timeout, kind_too_large, kind_remote, kind_io, RefreshLimits,
  RefreshResult, Fault, deadline, broken, Stream, Response, limit_stream, ReadError, too_large,
  stream_failed, read_limited,
}
use tdns.Blocklist.Revision.{valid_revision}
use tdns.Blocklist.Source.{Source}

-- What the client asks for: the revision of the branch, or the file at a revision.
pub data Request : Type 0 where
  get_ref : Source → Request
  get_file : Source → Text → Request

-- How reading a gzip stream goes: its content, how it fails, and how much was read of the stream.
pub record Unzipped : Type 0 where
  pub content : Stream
  pub consumed : ℕ

-- What stands for net/http, encoding/json, compress/gzip and the validation of a candidate. A request
-- that fails gives the kind that the client or its policy for redirections chose; `gunzip` is
-- none if the stream has no header of gzip.
pub record Remote : Type 0 where
  pub fetch : Request → Response ⊎ RefreshKind
  pub parse_sha : Text → Option Text
  pub gunzip : Stream → Option Unzipped
  pub validate : Text → RefreshLimits → ℕ ⊎ Fault

-- Which steps on the temporary file succeed.
pub record Disk : Type 0 where
  pub is_destination : Bool
  pub created : Bool
  pub restricted : Bool
  pub synced : Bool
  pub closed : Bool
  pub renamed : Bool

-- The kind of an error while a stream is read.
abbrev kind_of_fault : Bool → Fault → RefreshKind
kind_of_fault zipped deadline = kind_timeout
kind_of_fault zipped broken = if zipped then kind_invalid else kind_remote

abbrev kind_of_read : ReadError → RefreshKind
kind_of_read too_large = kind_too_large
kind_of_read (stream_failed deadline) = kind_timeout
kind_of_read (stream_failed broken) = kind_remote

abbrev pub exceeds : Option ℕ → ℕ → Bool
exceeds none limit = false
exceeds (some n) limit = ltb limit n

-- What a download gives: the candidate, with the sizes on the wire and of the content.
pub record Download : Type 0 where
  pub candidate : Text
  pub compressed : ℕ
  pub uncompressed : ℕ

module _ (r : Remote) (limits : RefreshLimits) where
  abbrev pub revision_of_sha : Option Text → Text ⊎ RefreshKind
  revision_of_sha none = inr kind_remote
  revision_of_sha (some sha) =
      if not (valid_revision sha) then inr kind_remote else inl (to_lower sha)

  abbrev pub revision_of_body : Text ⊎ ReadError → Text ⊎ RefreshKind
  revision_of_body (inr e) = inr (kind_of_read e)
  revision_of_body (inl body) = revision_of_sha (r.parse_sha body)

  abbrev pub revision_of_response : Response ⊎ RefreshKind → Text ⊎ RefreshKind
  revision_of_response (inr k) = inr k
  revision_of_response (inl resp) =
      if not (eqb resp.status 200)
      then inr kind_remote
      else revision_of_body (read_limited limits.metadata_bytes resp.body)

  unfoldable pub resolve_revision : Source → Text ⊎ RefreshKind
  resolve_revision source = revision_of_response (r.fetch (get_ref source))

  abbrev pub check_fault : Bool → Text → ℕ → Option Fault → Download ⊎ RefreshKind
  check_fault zipped content wire (some fault) = inr (kind_of_fault zipped fault)
  check_fault zipped content wire none =
      inl (record { candidate = content; compressed = wire; uncompressed = length content })

  -- The sizes are compared before the error of the copy is looked at.
  abbrev check_sizes : Bool → Stream → ℕ → Download ⊎ RefreshKind
  check_sizes zipped copied wire =
      if ltb limits.uncompressed_bytes (length copied.bytes) || ltb limits.compressed_bytes wire
      then inr kind_too_large
      else check_fault zipped copied.bytes wire copied.fault

  abbrev pub copy_content : Bool → Stream → ℕ → Download ⊎ RefreshKind
  copy_content zipped content wire =
      check_sizes zipped (limit_stream (limits.uncompressed_bytes + 1) content) wire

  abbrev pub copy_unzipped : Option Unzipped → Download ⊎ RefreshKind
  copy_unzipped none = inr kind_invalid
  copy_unzipped (some z) = copy_content true z.content z.consumed

  abbrev copy_encoded : Text → Response → Stream → Download ⊎ RefreshKind
  copy_encoded encoding resp wire =
      if encoding == txt "gzip"
      then copy_unzipped (r.gunzip wire)
      else if not (is_empty encoding) && not (encoding == txt "identity")
      then inr kind_invalid
      else if exceeds resp.content_length limits.uncompressed_bytes
      then inr kind_too_large
      else copy_content false wire
          (length (limit_stream (limits.uncompressed_bytes + 1) wire).bytes)

  abbrev pub download_response : Response ⊎ RefreshKind → Download ⊎ RefreshKind
  download_response (inr k) = inr k
  download_response (inl resp) =
      if not (eqb resp.status 200)
      then inr kind_remote
      else if exceeds resp.content_length limits.compressed_bytes
      then inr kind_too_large
      else copy_encoded (to_lower (trim_space resp.content_encoding)) resp
          (limit_stream (limits.compressed_bytes + 1) resp.body)

  unfoldable pub download : Source → Text → Download ⊎ RefreshKind
  download source revision = download_response (r.fetch (get_file source revision))

  -- The file afterwards, with the result.
  abbrev RefreshOutcome : Type 0
  RefreshOutcome = Option Text × (RefreshResult ⊎ RefreshKind)

  abbrev pub install : Disk → Text → Option Text → Download → ℕ ⊎ Fault → RefreshOutcome
  install disk revision file d (inr deadline) = (file, inr kind_timeout)
  install disk revision file d (inr broken) = (file, inr kind_invalid)
  install disk revision file d (inl entries) = if not disk.renamed then (file, inr kind_io) else (
    some d.candidate,
    inl (record {
      changed = true;
      revision = revision;
      compressed_bytes = d.compressed;
      uncompressed_bytes = d.uncompressed;
      entries = entries;
    }),
  )

  abbrev pub with_candidate : Disk → Text → Option Text → Download ⊎ RefreshKind → RefreshOutcome
  with_candidate disk revision file (inr k) = (file, inr k)
  with_candidate disk revision file (inl d) =
      if not disk.synced || not disk.closed
      then (file, inr kind_io)
      else install disk revision file d (r.validate d.candidate limits)

  abbrev pub unchanged : Text → RefreshResult
  unchanged revision = record {
    changed = false;
    revision = revision;
    compressed_bytes = 0;
    uncompressed_bytes = 0;
    entries = 0;
  }

  abbrev pub with_revision :
      Disk → Source → Text → Option Text → Text ⊎ RefreshKind → RefreshOutcome
  with_revision disk source previous file (inr k) = (file, inr k)
  with_revision disk source previous file (inl revision) =
      if revision == previous
      then (file, inl (unchanged revision))
      else if not disk.is_destination || not disk.created || not disk.restricted
      then (file, inr kind_io)
      else with_candidate disk revision file (download source revision)

  -- `Refresh`: the destination is replaced by a rename, in the end.
  unfoldable pub refresh : Disk → Source → Text → Option Text → RefreshOutcome
  refresh disk source previous file =
      with_revision disk source previous file (resolve_revision source)
