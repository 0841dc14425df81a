-- ===== src/Tests/Failures.antt =====
-- The findings of capabilities/rw-checks/tools/_common.py for checks that did not run, at concrete inputs.
use rw_checks_codecollection.Prelude.{
  ◌≡◌, refl, false, List, [], ◌∷◌, none, some, codes, text_eq, ℤ, pos, negsuc,
}
use rw_checks_codecollection.Paths.{split_slash}
use rw_checks_codecollection.Findings.{Worktree, normalized}
use rw_checks_codecollection.Findings.Uri.{
  push_part, norm_parts, path_parts, normpath, climbs, normalize_uri,
}
use rw_checks_codecollection.Checks.Runner.{whole_repo_path}
use rw_checks_codecollection.Checks.Failures.{
  Process, unsafe_config_finding, Says, unsafe_config_finding-Says,
}

abbrev tree : Worktree
tree = record {
  urlparse = λ uri. some ([], uri);
  unquote = λ path. path;
  abs_root = codes "/w";
  safe_path = λ p. some p;
  read_text = λ p. none;
  is_space = λ c. false;
  lower = λ t. t;
}

whole_repo_path-survives : normalized tree whole_repo_path ≡ some whole_repo_path
unfolding normalize_uri normpath path_parts norm_parts push_part split_slash text_eq climbs
whole_repo_path-survives = refl

-- A reason about a path outside the tree.
unsafe_config_finding-Says_example :
    Says tree
      (codes "rw-checks")
      (codes "ruff")
      (codes "../x: sets extend; check skipped")
      (unsafe_config_finding tree (codes "rw-checks") (codes "ruff") (codes "../x: sets extend"))
unsafe_config_finding-Says_example =
    unsafe_config_finding-Says tree (codes "rw-checks") (codes "ruff") whole_repo_path
      whole_repo_path-survives (codes "../x: sets extend")

-- A tool that a signal ended.
abbrev killed : Process
killed = record { returncode = negsuc 8; stderr = [] }

abbrev expected : List ℤ
expected = pos 0 ∷ pos 1 ∷ []
