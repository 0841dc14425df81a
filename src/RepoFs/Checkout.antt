-- ===== src/RepoFs/Checkout.antt =====
-- A query of sdk/runwhen_capability/repo_query.py on a checkout: the reads, greps and listings of
-- sdk/runwhen_capability/repo_fs.py on one tree of nodes.
use rw_checks_codecollection.Prelude.{ℕ, Bool, true, false, List, Option, none, some, Text, codes}
use rw_checks_codecollection.Json.{Json}
use rw_checks_codecollection.Faults.{os_error, Result, ok, raise}
use rw_checks_codecollection.Query.Ops.{GrepCall, Repo}
use rw_checks_codecollection.RepoFs.Read.{Disk, fault}
use rw_checks_codecollection.RepoFs.Tree.{repo_of}
use rw_checks_codecollection.RepoFs.Walk.{Node, plain, check_tree_materialized}
use rw_checks_codecollection.RepoFs.Grep.{GrepArgs, Texts, grep_tree}
use rw_checks_codecollection.RepoFs.Ls.{Places, ls_tree}

-- What the path of the tree leads to, and what repo_fs.py uses besides.
pub record Checkout : Type 0 where
  pub root : Option Node
  pub texts : Texts
  pub places : Places

abbrev node_is_file : Option Node → Bool
node_is_file (some (plain bytes size)) = true
node_is_file _ = false

abbrev file_bytes : Option (List ℕ) → Result (List ℕ)
file_bytes (some bytes) = ok bytes
file_bytes none = raise (fault os_error (codes "unreadable file"))

-- Only a file is read. What the system says in an OSError is left open.
abbrev node_bytes : Option Node → Result (List ℕ)
node_bytes (some (plain bytes size)) = file_bytes bytes
node_bytes _ = raise (fault os_error (codes "not a file"))

abbrev pub disk_of : Checkout → Disk
disk_of c = record {
  check_tree_materialized = check_tree_materialized c.root;
  safe_path = c.places.safe_path;
  is_file = λ full. node_is_file (c.places.node_at full);
  read_bytes = λ full. node_bytes (c.places.node_at full);
  decode = c.texts.decode;
  compile = c.texts.compile false;
  repr = λ path. c.places.repr (some path);
}

-- The ops call grep_tree with `globs` only.
abbrev pub args_of : GrepCall → GrepArgs
args_of call = record {
  glob = none;
  globs = call.globs;
  max_matches = call.max_matches;
  ignore_case = call.ignore_case;
  context = call.context;
  exclude = call.exclude;
}

abbrev pub checkout_repo : Checkout → (Text → Text → Bool) → Repo
checkout_repo c re_search =
    repo_of (disk_of c) (λ (call : GrepCall). grep_tree c.texts c.root call.pattern (args_of call))
      (ls_tree c.places c.root) re_search
