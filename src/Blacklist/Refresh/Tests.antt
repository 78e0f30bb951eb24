-- ===== src/Blacklist/Refresh/Tests.antt =====
-- A refresh from a remote side that has a small list.
use tdns.Base.{nat_eq, text_eq, ◌≡◌, refl, true, false, none, some, [], ◌∷◌}
use tdns.Base.Strings.{txt}
use tdns.Blacklist.Tests.{list_tree, blocking, hosts}
use tdns.Blocklist.Tests.{small_remote, small_limits, good_disk, listed}
use tdns.Blacklist.Refresh.{Scanning, InstalledList, refresh_list}

-- Every text is two lines of hosts.
abbrev scanning : Scanning
scanning = record { lines_of = λ content limits. hosts; is_late = λ e. false }

abbrev nothing_installed : InstalledList
nothing_installed = record { list = none; is_regular = false; state = none }

-- The list is installed, and the hole is built from it.
refresh_list_installs :
    (refresh_list list_tree scanning small_remote small_limits true good_disk
      (some listed)
      blocking
      nothing_installed).0.hole
    ≡ some (txt "tracker.net" ∷ txt "ads.example" ∷ [])
unfolding refresh_list tdns.Blocklist.Client.refresh tdns.Blocklist.Client.resolve_revision
    tdns.Blocklist.Types.limit_stream tdns.Blocklist.Types.take
    tdns.Blocklist.Revision.valid_revision tdns.Blocklist.Revision.all_hex tdns.Base.text_beq
    tdns.Base.Strings.to_lower tdns.Blocklist.Client.download tdns.Base.Strings.trim_right
    tdns.Base.Strings.trim_left tdns.Blacklist.Hole.build_hole tdns.Blacklist.Hole.add_lines
    tdns.Blacklist.Hole.add_line tdns.Base.Strings.has_prefix tdns.Base.Strings.fields tdns.Base.any
    tdns.Base.Strings.has_suffix tdns.Base.Strings.trim_dot tdns.Blacklist.Hole.add_extra
    tdns.Blacklist.Hole.add_field tdns.Blacklist.Hole.add_fields tdns.Selectors.matches_suffix
    tdns.Selectors.normalize_domain_pattern
refresh_list_installs = refl
