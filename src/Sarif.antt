-- ===== src/Sarif.antt =====
-- sdk/runwhen_capability/sarif.py: the byte guard, the flattening of a report, and the line reader.
-- json.loads and urljoin are parameters; a report is what it holds, an absent field being empty.
pub mod Bounds
pub mod Reader
use rw_checks_codecollection.Prelude.{
  ℕ, zero, suc, ◌+◌, ◌*◌, Bool, true, false, not, ◌&&◌, List, [], ◌∷◌, ◌++◌, Option, none, some,
  ltb, if◌then◌else◌, Text, codes, length, take, byte_len, show_ℕ, text_eq, map, get_elem?,
}
use rw_checks_codecollection.Faults.{Exn, value_error, Result, ok, raise, ◌>>=◌}
use rw_checks_codecollection.Paths.{normalize_path}
use rw_checks_codecollection.Findings.{
  Severity, error, warning, note, Finding, max_findings_per_result, Worktree, normalized,
  normalize_context, line_or_empty,
}
use rw_checks_codecollection.RepoFs.Read.{split_lines, strip_cr}

-- SARIF_BYTE_BUDGET = 64 * 1024 * 1024
abbrev pub sarif_byte_budget : ℕ
sarif_byte_budget = 67108864

abbrev pub too_large : ℕ → Exn
too_large size = record {
  kind = value_error;
  message = codes "check output too large to process: " ++ show_ℕ size ++ codes " bytes";
}

-- The guard at the head of SarifClient.parse, which counts bytes only where characters do not decide.
unfoldable pub check_size : Text → Result (Unit {0})
check_size t =
    if ltb sarif_byte_budget (length t)
    then raise (too_large (length t))
    else if ltb sarif_byte_budget (length t * 4)
    then (if ltb sarif_byte_budget (byte_len t) then raise (too_large (byte_len t)) else ok tt)
    else ok tt

-- severity, the default mapping of SARIF levels
unfoldable pub severity : (Text → Text) → Text → Severity
unfolding text_eq
severity lower level =
    if text_eq (lower level) (codes "error")
    then error
    else if text_eq (lower level) (codes "warning")
    then warning
    else note

pub record Region : Type 0 where
  pub start_line : ℕ
  pub start_column : ℕ
  pub end_line : ℕ
  pub end_column : ℕ
  pub snippet : Text

-- locations[0].physicalLocation
pub record Location : Type 0 where
  pub uri : Text
  pub uri_base_id : Text
  pub region : Region

pub record SarifResult : Type 0 where
  pub rule_id : Text
  pub level : Text
  pub message : Text
  pub location : Option Location

-- `bases` is originalUriBaseIds, `rules` the ids and properties of tool.driver.rules.
pub record SarifRun (Properties : Type 0) : Type 0 where
  pub bases : List (Text × Text)
  pub rules : List (Text × Properties)
  pub results : List SarifResult

abbrev pub assoc {ℓ} : {A : Type ℓ} → Text → List (Text × A) → Option A
assoc key [] = none
assoc key ((k, v) ∷ rest) = let found = assoc key rest in if text_eq key k then some v else found

-- dict[key] = value over a list, where the last counts
abbrev pub last_assoc {ℓ} : {A : Type ℓ} → Text → List (Text × A) → A → A
last_assoc key [] default = default
last_assoc key ((k, v) ∷ rest) default = last_assoc key rest (if text_eq key k then v else default)

abbrev pub join_base : (Text → Text → Option Text) → Text → Option Text → Text
join_base urljoin uri none = uri
join_base urljoin uri (some []) = uri
join_base urljoin uri (some (c ∷ base)) = elim (urljoin (c ∷ base) uri) [
  | none ↦ uri
  | some joined ↦ joined
]

-- findings.resolve_base_uri
unfoldable pub resolve_base_uri : (Text → Text → Option Text) → Location → List (Text × Text) → Text
unfolding text_eq
resolve_base_uri urljoin location bases = elim location.uri_base_id [
  | [] ↦ location.uri
  | c ∷ id ↦ join_base urljoin location.uri (assoc (c ∷ id) bases)
]

pub record RawFinding : Type 0 where
  pub rule_id : Text
  pub severity : Severity
  pub message : Text
  pub path : Text
  pub line : ℕ
  pub column : ℕ
  pub end_line : ℕ
  pub end_column : ℕ
  pub snippet : Text

module _ {Properties : Type 0} (no_properties : Properties)
    (severity_fn : Text → Text → Properties → Severity) (urljoin : Text → Text → Option Text)
    (tree : Worktree) where
  abbrev pub raw_of : SarifResult → Severity → Location → Text → RawFinding
  raw_of res sev location path = record {
    rule_id = res.rule_id;
    severity = sev;
    message = res.message;
    path = path;
    line = location.region.start_line;
    column = location.region.start_column;
    end_line = location.region.end_line;
    end_column = location.region.end_column;
    snippet = location.region.snippet;
  }

  abbrev pub unplaced : SarifResult → Severity → RawFinding
  unplaced res sev = record {
    rule_id = res.rule_id;
    severity = sev;
    message = res.message;
    path = [];
    line = 0;
    column = 0;
    end_line = 0;
    end_column = 0;
    snippet = [];
  }

  abbrev pub placed_at : SarifResult → Severity → Location → Option Text → List RawFinding
  placed_at res sev location none = []
  placed_at res sev location (some path) = raw_of res sev location path ∷ []

  abbrev pub located_at :
      SarifResult → Severity → List (Text × Text) → Option Location → List RawFinding
  located_at res sev bases none = unplaced res sev ∷ []
  located_at res sev bases (some location) =
      placed_at res sev location (normalized tree (resolve_base_uri urljoin location bases))

  abbrev pub severity_in : SarifRun Properties → SarifResult → Severity
  severity_in run res =
      severity_fn res.rule_id res.level (last_assoc res.rule_id run.rules no_properties)

  -- What one result of a run yields: a finding, or nothing where its location does not resolve.
  unfoldable pub yields : SarifRun Properties → SarifResult → List RawFinding
  unfolding resolve_base_uri text_eq
  yields run res = located_at res (severity_in run res) run.bases res.location

  abbrev pub flatten_results : SarifRun Properties → List SarifResult → List RawFinding
  flatten_results run [] = []
  flatten_results run (res ∷ results) = yields run res ++ flatten_results run results

  -- _flatten, run to its end
  unfoldable pub flatten : List (SarifRun Properties) → List RawFinding
  unfolding yields
  flatten [] = []
  flatten (run ∷ runs) = flatten_results run run.results ++ flatten runs

  -- _resolve_context
  abbrev pub raw_context : RawFinding → Text
  raw_context rf = elim rf.snippet [
    | c ∷ s ↦ c ∷ s
    | [] ↦ elim rf.path [
      | [] ↦ []
      | c ∷ path ↦ elim rf.line [
        | zero ↦ []
        | suc n ↦ elim (tree.safe_path (normalize_path (c ∷ path))) [
          | none ↦ []
          | some full ↦ line_or_empty (tree.read_text full) (suc n)
        ]
      ]
    ]
  ]

  abbrev pub finding_from : Text → Text → RawFinding → Finding
  finding_from capability operation rf = record {
    capability = capability;
    operation = operation;
    rule = rf.rule_id;
    path = rf.path;
    line = rf.line;
    column = rf.column;
    end_line = rf.end_line;
    end_column = rf.end_column;
    severity = rf.severity;
    message = rf.message;
    context = normalize_context tree.is_space (raw_context rf);
  }

  -- SarifClient.parse: itertools.islice takes one finding more than a result may have.
  unfoldable pub parse :
      (Text → Result (List (SarifRun Properties))) → Text → Text → Text → Result (List Finding)
  unfolding check_size flatten normalize_context
  parse loads capability operation t = check_size t >>= λ _. loads t >>= λ runs.
      ok (
        map (finding_from capability operation) (take (suc max_findings_per_result) (flatten runs)))

-- _LineReader: the path whose lines it holds, and those.
pub record Memo : Type 0 where
  pub path : Text
  pub lines : List Text

abbrev pub line_in : List Text → ℕ → Option Text
line_in lines zero = none
line_in lines (suc n) = elim (get_elem? lines n) [ none ↦ none | some l ↦ some (strip_cr l) ]

module _ (read_text : Text → Option Text) where
  abbrev pub load : Text → ℕ → Option Text → Option Memo → Option Text × Option Memo
  load path n none memo = (none, memo)
  load path n (some t) memo =
      (line_in (split_lines t) n, some (record { path = path; lines = split_lines t }))

  -- _LineReader.read_line: the line, or none where it raises, and the memo after it.
  unfoldable pub read_line : Text → ℕ → Option Memo → Option Text × Option Memo
  unfolding split_lines text_eq
  read_line path n none = load path n (read_text path) none
  read_line path n (some memo) =
      if text_eq path memo.path
      then (line_in memo.lines n, some memo)
      else load path n (read_text path) (some memo)

  -- The reads of one parse, in order.
  unfoldable pub read_all : List (Text × ℕ) → Option Memo → List (Option Text)
  unfolding read_line
  read_all [] memo = []
  read_all ((path, n) ∷ reads) memo =
      let (line, after) = read_line path n memo in line ∷ read_all reads after
