-- ===== src/Tests/Fit.antt =====
-- Trimming of entries by sdk/runwhen_capability/repo_query.py at concrete inputs.
use rw_checks_codecollection.Prelude.{◌≡◌, refl, false, [], ◌∷◌, none, some, Text, codes, show_ℕ}
use rw_checks_codecollection.Json.{json_len, str_len, int_len}
use rw_checks_codecollection.Models.{
  GrepMatch, GrepResult, OpResult, QueryOpResult, grep_result, dump_entry, dump_result, dump_match,
}
use rw_checks_codecollection.Query.Fit.{entry_size, trim, trim_items, trim_list, cut_last_line}
use rw_checks_codecollection.Query.Fit.Trim.{first_matches}

-- Two lines and a newline, of which the first line and a half fit.
abbrev two_lines : Text
two_lines = codes "ab\ncd\n"

one_newline-cut : cut_last_line (codes "ab\ncd") ≡ some (codes "ab")
unfolding cut_last_line
one_newline-cut = refl

abbrev one_match : GrepMatch
one_match = record { path = codes "a.py"; line = 3; text = codes "x = 1"; before = []; after = [] }

abbrev two_matches : GrepResult
two_matches = record {
  matches = one_match ∷ one_match ∷ [];
  truncated = false;
  unreadable = [];
  unreadable_truncated = false;
}

abbrev entry_of : OpResult → QueryOpResult
entry_of r = record { index = 0; op = some "grep"; result = some r; error = none }

two_matches-trimmed :
    trim (entry_of (grep_result two_matches)) (some (grep_result two_matches)) 250
    ≡ some (first_matches (entry_of (grep_result two_matches)) two_matches 1)
unfolding trim trim_items trim_list entry_size json_len str_len int_len show_ℕ dump_entry
    dump_result dump_match
two_matches-trimmed = refl
