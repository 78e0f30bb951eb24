-- ===== src/Blacklist/Tests.antt =====
-- A blacklist whose hole is a list of domains.
use tdns.Base.{
  nat_eq, Text, text_beq, text_eq, length, is_empty, any, contains, ◌≤◌, ◌<◌, ◌≡◌, refl, ◌⊎◌, true,
  false, not, some, List, [], ◌∷◌, ◌++◌,
}
use tdns.Base.Strings.{
  txt, to_lower, trim_left, trim_right, has_prefix, cut_prefix, has_suffix, trim_dot, fields,
}
use tdns.Base.Sorting.{insert_sorted, sort_by, text_leb}
use tdns.Message.{Question, bad_record, ok, err}
use tdns.Message.Tests.{query, asked}
use tdns.Selectors.{
  SelectorSet, normalize_domain_pattern, matches_suffix, parse_selector, collect_selectors,
  parse_selectors, normalize_selector_values,
}
use tdns.Blacklist.Hole.{
  Tree, IsTree, Limits, HostsFile, Build, add_field, add_fields, add_line, add_lines, add_extra,
  build_hole,
}
use tdns.Blacklist.Contents.{IsClean, build_hole-IsClean}
use tdns.Blacklist.Decisions.{IsDecided, run_lem, replace_persisted_excludes-IsClean}
use tdns.Blacklist.{NewRr, BlackList, run, reload_hole, replace_persisted_excludes}

abbrev pub list_tree : Tree
list_tree = record {
  Node = List Text;
  new = [];
  insert = λ h k. k ∷ h;
  member = contains;
  size = length;
  is_address = λ t. not (is_empty t);
  is_domain_name = λ t. not (is_empty t);
}

pub list_tree-IsTree : IsTree list_tree
unfolding contains
list_tree-IsTree = record { member-new = λ q. refl; member-insert = λ h k q. refl }

abbrev pub new_a : NewRr
new_a domain address = ok (record { owner = domain; rrtype = 1; ttl = 3600; rdata = address })

abbrev refuse_a : NewRr
refuse_a domain address = err bad_record

abbrev no_rules : SelectorSet
no_rules = record { domains = []; labels = [] }

abbrev pub blocking : BlackList list_tree
blocking = record {
  enabled = true;
  hole = some (txt "ads.example" ∷ []);
  hole_loaded = true;
  white_list = txt "good.org" ∷ [];
  persisted_list = [];
  extra_hosts = txt "tracker.net" ∷ [];
  white_rules = record { domains = txt "good.org" ∷ []; labels = [] };
  runtime_list = [];
  runtime_rules = no_rules;
}

abbrev exempting : BlackList list_tree
exempting = record blocking { runtime_list = txt "label:kids" ∷ [] }

abbrev pub question : Question
question = record { qname = txt "ads.example."; qtype = 1; qclass = 1 }

abbrev limits : Limits
limits = record { max_entries = 3 }

abbrev pub hosts : HostsFile
hosts = record {
  lines = txt "# list" ∷ txt "0.0.0.0 ads.example" ∷ txt "0.0.0.0 cdn.good.org #x" ∷ [];
  scan_error = false;
  is_cancelled = λ line. false;
}

run_example :
    IsDecided list_tree blocking new_a asked query question [] (run list_tree blocking new_a asked)
run_example = run_lem list_tree blocking new_a asked query question [] refl refl

abbrev built_hole : Build list_tree
built_hole = record { hole = txt "tracker.net" ∷ txt "ads.example" ∷ []; entries = 2 }

build_hole_example :
    IsClean list_tree list_tree-IsTree (txt "good.org" ∷ []) built_hole.hole
    × (built_hole.entries ≤ limits.max_entries)
    × ((true ≡ false) ⊎ (0 < built_hole.entries))
unfolding build_hole tdns.Blacklist.Hole.add_lines tdns.Blacklist.Hole.add_line
    tdns.Base.Strings.trim_right tdns.Base.Strings.trim_left tdns.Base.Strings.has_prefix
    tdns.Base.Strings.fields tdns.Blacklist.Hole.add_fields tdns.Blacklist.Hole.add_field
    normalize_domain_pattern tdns.Base.Strings.trim_dot tdns.Base.Strings.to_lower
    tdns.Blacklist.Hole.add_extra tdns.Selectors.matches_suffix tdns.Base.any
    tdns.Base.Strings.has_suffix tdns.Base.text_beq
build_hole_example =
    build_hole-IsClean list_tree list_tree-IsTree true limits (txt "good.org" ∷ [])
      (txt "tracker.net" ∷ []) (some hosts) built_hole refl

abbrev excluded : BlackList list_tree
excluded = record blocking {
  hole = some (txt "ads.example" ∷ []);
  persisted_list = txt "tracker.net" ∷ [];
  white_rules = parse_selectors (txt "good.org" ∷ txt "tracker.net" ∷ []);
}

replace_persisted_excludes_example :
    IsClean list_tree list_tree-IsTree
      (parse_selectors
        (blocking.white_list ++ normalize_selector_values (txt "Tracker.net." ∷ []))).domains
      (txt "ads.example" ∷ [])
    × (excluded.white_rules
        ≡ parse_selectors
            (blocking.white_list ++ normalize_selector_values (txt "Tracker.net." ∷ [])))
    × (excluded.runtime_list ≡ blocking.runtime_list)
    × (excluded.enabled ≡ blocking.enabled)
unfolding replace_persisted_excludes tdns.Blacklist.reload_hole build_hole
    tdns.Blacklist.Hole.add_lines tdns.Blacklist.Hole.add_line tdns.Base.Strings.trim_right
    tdns.Base.Strings.trim_left tdns.Base.Strings.has_prefix tdns.Base.Strings.fields
    tdns.Blacklist.Hole.add_fields tdns.Blacklist.Hole.add_field normalize_domain_pattern
    tdns.Base.Strings.trim_dot tdns.Base.Strings.to_lower tdns.Blacklist.Hole.add_extra
    normalize_selector_values tdns.Selectors.matches_suffix parse_selectors tdns.Base.any
    tdns.Base.Sorting.sort_by tdns.Selectors.collect_selectors contains
    tdns.Base.Sorting.insert_sorted tdns.Base.Sorting.text_leb tdns.Base.Strings.cut_prefix
    tdns.Base.Strings.has_suffix tdns.Base.text_beq tdns.Selectors.parse_selector
replace_persisted_excludes_example =
    replace_persisted_excludes-IsClean list_tree list_tree-IsTree limits (some hosts)
      (txt "Tracker.net." ∷ []) blocking excluded (txt "ads.example" ∷ []) refl refl
