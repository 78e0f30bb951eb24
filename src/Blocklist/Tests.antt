-- ===== src/Blocklist/Tests.antt =====
-- A remote side that always has the same small list.
use tdns.Base.{
  nat_eq, Text, text_eq, length, ◌≡◌, refl, ◌⊎◌, inl, inr, true, false, none, some, [], ◌∷◌, ◌++◌,
}
use tdns.Base.Strings.{txt, to_lower}
use tdns.Blocklist.Types.{
  RefreshKind, kind_too_large, RefreshLimits, default_limits, Stream, Response,
}
use tdns.Blocklist.Revision.{valid_revision, read_revision, read_revision-write_revision}
use tdns.Blocklist.Source.{Source, validate_branch}
use tdns.Blocklist.Client.{Request, get_ref, get_file, Remote, Disk, refresh}
use tdns.Blocklist.Laws.{IsRefreshed, refresh-IsRefreshed}

abbrev sha : Text
sha = txt "ABCDEF0123456789abcdef0123456789abcdef01"

abbrev plain_response : Text → Response
plain_response body = record {
  status = 200;
  content_length = some (length body);
  content_encoding = [];
  body = record { bytes = body; fault = none };
}

abbrev answer_request : Request → Response ⊎ RefreshKind
answer_request (get_ref source) = inl (plain_response sha)
answer_request (get_file source revision) = inl (plain_response (txt "0.0.0.0 ads.example"))

abbrev pub small_remote : Remote
small_remote = record {
  fetch = answer_request;
  parse_sha = λ body. some body;
  gunzip = λ s. none;
  validate = λ s limits. inl 1;
}

abbrev pub small_limits : RefreshLimits
small_limits = record default_limits {
  metadata_bytes = 64;
  compressed_bytes = 32;
  uncompressed_bytes = 40;
}

abbrev pub good_disk : Disk
good_disk = record {
  is_destination = true;
  created = true;
  restricted = true;
  synced = true;
  closed = true;
  renamed = true;
}

abbrev pub listed : Source
listed = record { owner = txt "o"; repo = txt "r"; branch = txt "master"; file = txt "hosts" }

refresh_installs :
    (refresh small_remote small_limits good_disk listed [] none).0
    ≡ some (txt "0.0.0.0 ads.example")
unfolding refresh tdns.Blocklist.Client.resolve_revision tdns.Blocklist.Types.limit_stream
    tdns.Blocklist.Types.take valid_revision tdns.Blocklist.Revision.all_hex tdns.Base.text_beq
    to_lower tdns.Blocklist.Client.download tdns.Base.Strings.trim_right tdns.Base.Strings.trim_left
refresh_installs = refl

refresh_too_large :
    refresh small_remote
      (record small_limits { compressed_bytes = 8 })
      good_disk
      listed
      []
      (some (txt "old"))
    ≡ (some (txt "old"), inr kind_too_large)
unfolding refresh tdns.Blocklist.Client.resolve_revision tdns.Blocklist.Types.limit_stream
    tdns.Blocklist.Types.take valid_revision tdns.Blocklist.Revision.all_hex tdns.Base.text_beq
    to_lower tdns.Blocklist.Client.download
refresh_too_large = refl

refresh-IsRefreshed_example :
    IsRefreshed small_remote small_limits
      (txt "old")
      none
      (refresh small_remote small_limits good_disk listed (txt "old") none)
refresh-IsRefreshed_example =
    refresh-IsRefreshed small_remote small_limits good_disk listed (txt "old") none

abbrev written : Stream
written = record { bytes = to_lower sha ++ 10 ∷ []; fault = none }

read_revision-write_revision_example :
    (read_revision (some written) ≡ to_lower sha)
    × (valid_revision (read_revision (some written)) ≡ true)
unfolding tdns.Blocklist.Revision.write_revision valid_revision tdns.Blocklist.Revision.all_hex
read_revision-write_revision_example = read_revision-write_revision sha none (some written) refl

a_bad_branch : validate_branch (txt "a/.b") ≡ false
unfolding validate_branch tdns.Base.Strings.has_prefix tdns.Base.Strings.has_suffix
    tdns.Base.text_beq tdns.Blocklist.Source.contains_text tdns.Base.any tdns.Base.contains
    tdns.Blocklist.Source.split
a_bad_branch = refl
