-- ===== src/Lib.antt =====
-- rw-checks-codecollection: the runwhen_capability SDK and the capabilities built on it, as functions
-- with theorems about them.
--
-- The program runs tasks on a checkout of a repository. `rwtask serve` (sdk/runwhen_capability/serve.py)
-- polls a relay for requests, gives each a scope directory, lets the task host (host.py) run the
-- request's setup and tasks, and posts what came of it. The tasks of rw-worktree read the checkout
-- (repo_fs.py) and answer batches of read-only ops under one response budget (repo_query.py, symbols.py).
-- The tasks of rw-checks (capabilities/rw-checks/tools) run linters on the changed files in batches and
-- turn their output into findings (findings.py, sarif.py).
--
-- Files:
--   Prelude, Json, Faults    shared: lists, texts and sets over native numbers; JSON and the length of
--                            json.dumps; exceptions as values and error_code of repo_fs.py
--   Paths                    normalize_path of findings.py; the parts of POSIX paths
--   PathSafe                 pathsafe.py, with Confined for its theorems
--   Models, Symbols          the result models of models.py; the patterns of symbols.py
--   Query                    repo_query.py: Fields (_field and its readers), Ops (_grep .. _run_op),
--                            Fit (_fit, _trim_items, _trim_read, _clip_content), Run (run_query)
--   RepoFs                   repo_fs.py: Select (_select_lines), Ranges (_merge_ranges), Read (read_lines,
--                            read_ranges, find_around), Budget and Content (their theorems),
--                            Tree (the reads as the tree of the query ops), Walk (a checkout as a tree of
--                            nodes, check_tree_materialized, _walk_files), Grep (grep_tree, match_glob), Ls
--                            (ls_tree), Reach (what lies in a directory), Checkout (all of it as the tree of a query)
--   Findings, Sarif          findings.py (Uri is normalize_uri, Laws the theorems) and sarif.py (Bounds,
--                            Reader)
--   Checks                   capabilities/rw-checks/tools: Plan (_plan.py, with Steps for plan itself),
--                            Batches and Runner (_runner.py), Failures (the findings of _common.py)
--   Guards                   capabilities/rw-checks/guards.py: Files (_selected, _reason), Document (_walk, _toml_table),
--                            Tools (the guards of pylint to regal), Chain (_walk_extend_chain, ruff, biome),
--                            Comments (the strippers), Sql (sqlfluff), Hcl (tflint); Search, Verdict, Safe, Chain.Closed,
--                            Chain.Tools, Comments.Pieces, Sql.Lines, Sql.Mirror, Sql.Safe and Hcl.Safe are their theorems
--   Serve                    serve.py: Scope (scope ids), Warm (the LRU of scopes), Poll (_poll_once, serve)
--   Host                     host.py: Values (placeholders, keyword names, _to_jsonable), Cache (the setup
--                            cache), Request (run_request, with Setup and Tasks)
--   Tests                    runs at concrete inputs
--
-- How state and effects stand: the variables of a loop are a record that the loop's step maps (Query.Run.Loop,
-- Serve.Pod), an exception is a value of Faults.Result, and what a poll does outside is a list of actions.
-- A text is the list of its code points, and its UTF-8 length is computed from these. A clock is a function
-- from the round to the time it shows.
--
-- Loops are structural recursion. Two run on fuel: the bisection of _clip_content, on the length of the
-- content, which Query.Fit.Clip.bisection-Best shows to be enough, and the decimal digits of a number, on
-- the number itself, as each round divides by ten.
--
-- Parameters: the file systems, `re`, urllib's urlparse, unquote and urljoin, json.loads, the parsers of the guards, the
-- relay, mkdir, and the registered task functions. Query takes what it calls of repo_fs.py as the record
-- Query.Ops.Repo, whose reads RepoFs.Tree.repo_of fills with those of repo_fs.py and RepoFs.Checkout with all of it. A checkout
-- is a tree of nodes that stands still while a call runs; what safe_path gives and what stands at such a
-- path, links followed, are parameters there. Findings and Sarif take safe_path not to raise.
--
-- Not modelled: the search for a config (nearest_config), the adapters of rw-checks, artifact-tools, the
-- subprocess context, git, the command line and the scripts. Logging has no effect on any result and is left
-- out.
pub mod Prelude
pub mod Json
pub mod Models
pub mod Faults
pub mod Symbols
pub mod Paths
pub mod PathSafe
pub mod Query
pub mod RepoFs
pub mod Findings
pub mod Sarif
pub mod Checks
pub mod Guards
pub mod Serve
pub mod Host
mod Tests
