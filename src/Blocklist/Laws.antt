-- ===== src/Blocklist/Laws.antt =====
-- What a refresh may do to the list that is installed.
use tdns.Base.{
  ltb, eqb, nat_eq, Text, text_beq_iff, text_eq, ◌==◌, if_elim, length, is_empty, ℕ, ◌+◌, ◌≤◌, ◌≡◌,
  refl, ◌⊎◌, inl, inr, Bool, true, false, not, ◌&&◌, ◌||◌, Option, none, some, arith,
}
use tdns.Base.Strings.{txt, to_lower, trim_space}
use tdns.Blocklist.Types.{
  RefreshKind, RefreshLimits, RefreshResult, Fault, deadline, broken, Stream, Response,
  limit_stream, ReadError, read_limited,
}
use tdns.Blocklist.Revision.{valid_revision, valid_revision-to_lower}
use tdns.Blocklist.Source.{Source}
use tdns.Blocklist.Client.{
  get_ref, get_file, Unzipped, Remote, Disk, exceeds, Download, revision_of_sha, revision_of_body,
  revision_of_response, resolve_revision, check_fault, copy_content, copy_unzipped,
  download_response, download, install, with_candidate, with_revision, refresh,
}

module _ (r : Remote) (limits : RefreshLimits) where
  -- A candidate within the limits.
  abbrev IsDownload : Download ⊎ RefreshKind → Type 0
  IsDownload (inr k) = Unit
  IsDownload (inl d) =
      (length d.candidate ≤ limits.uncompressed_bytes)
      × (d.compressed ≤ limits.compressed_bytes)
      × (d.uncompressed ≡ length d.candidate)

  check_fault-IsDownload :
      (zipped : Bool) (content : Text) (wire : ℕ) (fault : Option Fault)
      → length content ≤ limits.uncompressed_bytes
      → wire ≤ limits.compressed_bytes
      → IsDownload (check_fault r limits zipped content wire fault)
  check_fault-IsDownload zipped content wire none a b = (a, b, refl)
  check_fault-IsDownload zipped content wire (some fault) a b = tt

  copy_content-IsDownload :
      (zipped : Bool) (content : Stream) (wire : ℕ)
      → IsDownload (copy_content r limits zipped content wire)
  copy_content-IsDownload zipped content wire =
      let copied = limit_stream (limits.uncompressed_bytes + 1) content in
      if_elim {A = Download ⊎ RefreshKind} IsDownload
        (ltb limits.uncompressed_bytes (length copied.bytes) || ltb limits.compressed_bytes wire) _
        _ (λ _. tt)
        (λ h.
          check_fault-IsDownload zipped copied.bytes wire copied.fault (ground arith)
            (ground arith))

  copy_unzipped-IsDownload : (o : Option Unzipped) → IsDownload (copy_unzipped r limits o)
  copy_unzipped-IsDownload none = tt
  copy_unzipped-IsDownload (some z) = copy_content-IsDownload true z.content z.consumed

  download_response-IsDownload :
      (x : Response ⊎ RefreshKind) → IsDownload (download_response r limits x)
  download_response-IsDownload (inr k) = tt
  download_response-IsDownload (inl resp) =
      let wire = limit_stream (limits.compressed_bytes + 1) resp.body in
      let encoding = to_lower (trim_space resp.content_encoding) in
      if_elim {A = Download ⊎ RefreshKind} IsDownload (not (eqb resp.status 200)) _ _ (λ _. tt)
        λ _.
          if_elim {A = Download ⊎ RefreshKind} IsDownload
            (exceeds resp.content_length limits.compressed_bytes) _ _ (λ _. tt)
            λ _.
              if_elim {A = Download ⊎ RefreshKind} IsDownload (encoding == txt "gzip") _ _
                (λ _. copy_unzipped-IsDownload (r.gunzip wire))
                λ _.
                  if_elim {A = Download ⊎ RefreshKind} IsDownload
                    (not (is_empty encoding) && not (encoding == txt "identity")) _ _ (λ _. tt)
                    λ _.
                      if_elim {A = Download ⊎ RefreshKind} IsDownload
                        (exceeds resp.content_length limits.uncompressed_bytes) _ _ (λ _. tt)
                        (λ _. copy_content-IsDownload false wire _)

  download-IsDownload :
      (source : Source) (revision : Text) → IsDownload (download r limits source revision)
  unfolding download
  download-IsDownload source revision =
      download_response-IsDownload (r.fetch (get_file source revision))

  -- A revision that was resolved is one.
  abbrev IsRevision : Text ⊎ RefreshKind → Type 0
  IsRevision (inr k) = Unit
  IsRevision (inl revision) = valid_revision revision ≡ true

  sha-IsRevision : (o : Option Text) → IsRevision (revision_of_sha r limits o)
  sha-IsRevision none = tt
  sha-IsRevision (some sha) =
      if_elim {A = Text ⊎ RefreshKind} IsRevision (not (valid_revision sha)) _ _ (λ _. tt)
        (λ h. valid_revision-to_lower sha (ground arith))

  body-IsRevision : (b : Text ⊎ ReadError) → IsRevision (revision_of_body r limits b)
  body-IsRevision (inr e) = tt
  body-IsRevision (inl body) = sha-IsRevision (r.parse_sha body)

  response-IsRevision : (x : Response ⊎ RefreshKind) → IsRevision (revision_of_response r limits x)
  response-IsRevision (inr k) = tt
  response-IsRevision (inl resp) =
      if_elim {A = Text ⊎ RefreshKind} IsRevision (not (eqb resp.status 200)) _ _ (λ _. tt)
        (λ _. body-IsRevision (read_limited limits.metadata_bytes resp.body))

  -- An error leaves the file; a result is either that of the same revision, with the file left, or a
  -- valid candidate of another one, within the limits, in place of the file.
  abbrev pub IsRefreshed : Text → Option Text → Option Text × (RefreshResult ⊎ RefreshKind) → Type 0
  IsRefreshed previous file (file', inr k) = file' ≡ file
  IsRefreshed previous file (file', inl x) =
      (valid_revision x.revision ≡ true)
      × (((x.changed ≡ false) × (x.revision ≡ previous) × (file' ≡ file))
          ⊎ ((s : Text) × (file' ≡ some s)
              × (x.changed ≡ true)
              × ((x.revision == previous) ≡ false)
              × (r.validate s limits ≡ inl x.entries)
              × (length s ≤ limits.uncompressed_bytes)
              × (x.compressed_bytes ≤ limits.compressed_bytes)
              × (x.uncompressed_bytes ≡ length s)))

  install-IsRefreshed :
      (disk : Disk) (revision previous : Text) (file : Option Text) (d : Download) (v : ℕ ⊎ Fault)
      → valid_revision revision ≡ true
      → (revision == previous) ≡ false
      → IsDownload (inl d)
      → r.validate d.candidate limits ≡ v
      → IsRefreshed previous file (install r limits disk revision file d v)
  install-IsRefreshed disk revision previous file d (inr deadline) a b c e = refl
  install-IsRefreshed disk revision previous file d (inr broken) a b c e = refl
  install-IsRefreshed disk revision previous file d (inl entries) a b (u, w, n) e =
      if_elim {A = Option Text × (RefreshResult ⊎ RefreshKind)} (IsRefreshed previous file)
        (not disk.renamed) _ _ (λ _. refl) (λ _. (a, inr (d.candidate, refl, refl, b, e, u, w, n)))

  candidate-IsRefreshed :
      (disk : Disk) (revision previous : Text) (file : Option Text) (d : Download ⊎ RefreshKind)
      → valid_revision revision ≡ true
      → (revision == previous) ≡ false
      → IsDownload d
      → IsRefreshed previous file (with_candidate r limits disk revision file d)
  candidate-IsRefreshed disk revision previous file (inr k) a b c = refl
  candidate-IsRefreshed disk revision previous file (inl d) a b c =
      if_elim {A = Option Text × (RefreshResult ⊎ RefreshKind)} (IsRefreshed previous file)
        (not disk.synced || not disk.closed) _ _ (λ _. refl)
        (λ _. install-IsRefreshed disk revision previous file d _ a b c refl)

  revision-IsRefreshed :
      (disk : Disk) (source : Source) (previous : Text) (file : Option Text)
      (x : Text ⊎ RefreshKind)
      → IsRevision x
      → IsRefreshed previous file (with_revision r limits disk source previous file x)
  revision-IsRefreshed disk source previous file (inr k) v = refl
  revision-IsRefreshed disk source previous file (inl revision) v =
      if_elim {A = Option Text × (RefreshResult ⊎ RefreshKind)} (IsRefreshed previous file)
        (revision == previous) _ _
        (λ same. (v, inl (refl, (text_beq_iff revision previous).0 same, refl)))
        λ other.
          if_elim {A = Option Text × (RefreshResult ⊎ RefreshKind)} (IsRefreshed previous file)
            (not disk.is_destination || not disk.created || not disk.restricted) _ _ (λ _. refl)
            (λ _.
              candidate-IsRefreshed disk revision previous file (download r limits source revision)
                v other (download-IsDownload source revision))

  -- Whatever the remote side answers and the disk does: a refresh that fails leaves the installed file,
  -- and one that succeeds either finds the same revision and leaves it too, or replaces it by a candidate
  -- that the validation accepted, whose size and whose size on the wire are within the limits.
  pub refresh-IsRefreshed :
      (disk : Disk) (source : Source) (previous : Text) (file : Option Text)
      → IsRefreshed previous file (refresh r limits disk source previous file)
  unfolding refresh resolve_revision
  refresh-IsRefreshed disk source previous file =
      revision-IsRefreshed disk source previous file (resolve_revision r limits source)
        (response-IsRevision (r.fetch (get_ref source)))
