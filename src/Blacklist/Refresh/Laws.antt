-- ===== src/Blacklist/Refresh/Laws.antt =====
-- What a refresh does to the blacklist and to the list that is installed.
use tdns.Blacklist.{BlackList}
use tdns.Base.{
  nat_eq, Text, text_eq, length, ◌≤◌, ◌<◌, ◌≡◌, ◌⊎◌, Bool, true, false, Option, none, some,
}
use tdns.Blacklist.Hole.{Tree, IsTree, Build, built}
use tdns.Blacklist.Contents.{IsClean}
use tdns.Blocklist.Types.{RefreshKind, RefreshLimits}
use tdns.Blocklist.Revision.{valid_revision, read_revision}
use tdns.Blocklist.Source.{Source}
use tdns.Blocklist.Client.{Remote}
use tdns.Blacklist.Refresh.{Scanning, InstalledList, strict_build}

module _ (t : Tree) (laws : IsTree t) (scan : Scanning) (remote : Remote)
    (limits : RefreshLimits) where
  -- The hole that a strict build made of the installed list, within the limits.
  abbrev IsInstalled : Bool → BlackList t → InstalledList → BlackList t → InstalledList → Type 0
  IsInstalled state_written b files b' files' =
      (candidate : Text) × (s : Build t) × (files'.list ≡ some candidate)
      × (strict_build t scan remote limits b candidate limits ≡ built s)
      × (b' ≡ record b { hole = some s.hole; hole_loaded = true })
      × IsClean t laws b.white_rules.domains s.hole
      × (0 < s.entries)
      × (s.entries ≤ limits.max_entries)
      × (length candidate ≤ limits.uncompressed_bytes)
      × (((state_written ≡ false) × (files'.state ≡ files.state))
          ⊎ (valid_revision (read_revision files'.state) ≡ true))

  abbrev pub IsListed :
      Bool → BlackList t → InstalledList → BlackList t × InstalledList × Option RefreshKind → Type 0
  IsListed state_written b files (b', files', some kind) = (b' ≡ b) × (files' ≡ files)
  IsListed state_written b files (b', files', none) =
      ((b' ≡ b) × (files' ≡ files)) ⊎ IsInstalled state_written b files b' files'
