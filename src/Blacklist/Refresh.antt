-- ===== src/Blacklist/Refresh.antt =====
-- `refresh` of middleware/blacklist.go: the client of the blocklist downloads a candidate, and validates
-- it by building a hole from it. The ingester is that client. Reading a text line by line, and the
-- deadline of the context, are parameters.
pub mod Laws
mod Tests
use tdns.Blacklist.{BlackList}
use tdns.Base.{
  if◌then◌else◌, nat_eq, Text, text_eq, is_empty, ℕ, ◌⊎◌, inl, inr, Bool, true, not, Option, none,
  some, [],
}
use tdns.Blacklist.Hole.{Tree, HoleError, HostsFile, Built, built, refused, build_hole}
use tdns.Blocklist.Types.{
  RefreshKind, RefreshLimits, RefreshResult, Fault, deadline, broken, Stream,
}
use tdns.Blocklist.Revision.{read_revision, write_revision}
use tdns.Blocklist.Source.{Source}
use tdns.Blocklist.Client.{Remote, Disk, refresh}

-- What stands for `bufio.Scanner` and the context: the lines of a text, none longer than the limit, and
-- whether an error counts as a missed deadline.
pub record Scanning : Type 0 where
  pub lines_of : Text → RefreshLimits → HostsFile
  pub is_late : HoleError → Bool

-- The file of hosts, and the file beside it with its revision; none if it is missing.
pub record InstalledList : Type 0 where
  pub list : Option Text
  pub is_regular : Bool
  pub state : Option Stream

abbrev revision_of_list : Option Stream → Option Text → Text
revision_of_list state none = []
revision_of_list state (some content) = if is_empty content then [] else read_revision state

-- `currentBlocklistRevision`
abbrev pub current_revision : InstalledList → Text
current_revision files = if files.is_regular then revision_of_list files.state files.list else []

module _ (t : Tree) (scan : Scanning) (remote : Remote) (limits : RefreshLimits) where
  -- The strict build of a candidate, with the rules and hosts of the blacklist.
  abbrev pub strict_build : BlackList t → Text → RefreshLimits → Built t
  strict_build b candidate l =
      build_hole t true (record { max_entries = l.max_entries }) b.white_rules.domains b.extra_hosts
        (some (scan.lines_of candidate l))

  abbrev pub counted : Built t → ℕ ⊎ Fault
  counted (refused e) = inr (if scan.is_late e then deadline else broken)
  counted (built s) = inl s.entries

  -- The callback that `refresh` hands to the client.
  abbrev pub validating : BlackList t → Remote
  validating b = record remote { validate = λ candidate l. counted (strict_build b candidate l) }

  -- The variable `prepared`: nil after a build that failed.
  abbrev pub prepared : Built t → Option t.Node
  prepared (refused e) = none
  prepared (built s) = some s.hole

  abbrev pub prepared_of : BlackList t → Option Text → Option t.Node
  prepared_of b none = none
  prepared_of b (some candidate) = prepared (strict_build b candidate limits)

  -- The blacklist and its files afterwards, and the error that is returned. A list that changed is the
  -- candidate that was validated last; `state_written` tells that the state could be written.
  abbrev pub after_refresh :
      Bool
      → BlackList t
      → InstalledList
      → Option Text × (RefreshResult ⊎ RefreshKind)
      → BlackList t × InstalledList × Option RefreshKind
  after_refresh state_written b files (list, inr kind) =
      (b, record files { list = list }, some kind)
  after_refresh state_written b files (list, inl result) =
      if not result.changed then (b, record files { list = list }, none) else (
        record b { hole = prepared_of b list; hole_loaded = true },
        record {
          list = list;
          is_regular = true;
          state = (write_revision state_written result.revision files.state).0;
        },
        none,
      )

  -- `refresh`; without a source there is no ingester either.
  unfoldable pub refresh_list :
      Bool
      → Disk
      → Option Source
      → BlackList t
      → InstalledList
      → BlackList t × InstalledList × Option RefreshKind
  refresh_list state_written disk none b files = (b, files, none)
  refresh_list state_written disk (some source) b files =
      after_refresh state_written b files
        (refresh (validating b) limits disk source (current_revision files) files.list)
