-- ===== src/Findings.antt =====
-- sdk/runwhen_capability/findings.py and the models that it fills: the finding, its context, the
-- changed-files filter, the adapter for tool records, and the cap.
pub mod Uri
pub mod Laws
use rw_checks_codecollection.Prelude.{
  ℕ, zero, suc, ◌+◌, ◌-◌, ◌≤◌, Bool, true, false, not, ◌&&◌, ◌||◌, List, [], ◌∷◌, ◌++◌, Option,
  none, some, ltb, leb, ◌==◌, if◌then◌else◌, Text, codes, length, take, drop, get_elem?, any,
  text_eq, mem,
}
use rw_checks_codecollection.Faults.{Result, ok, raise}
use rw_checks_codecollection.Paths.{normalize_path}
use rw_checks_codecollection.Findings.Uri.{normalize_uri}
use rw_checks_codecollection.RepoFs.Read.{split_lines, strip_cr}

-- models.Severity
pub data Severity : Type 0 where
  error warning note : Severity

pub record Finding : Type 0 where
  pub capability : Text
  pub operation : Text
  pub rule : Text
  pub path : Text
  pub line : ℕ
  pub column : ℕ
  pub end_line : ℕ
  pub end_column : ℕ
  pub severity : Severity
  pub message : Text
  pub context : Text

pub record FindingsResult : Type 0 where
  pub findings : List Finding
  pub truncated : Bool
  pub skipped : Option Text
  pub files_checked : ℕ

abbrev pub max_findings_per_result : ℕ
max_findings_per_result = 100000

-- FindingsClient.cap
unfoldable pub cap : List Finding → Option Text → ℕ → FindingsResult
cap findings skipped files_checked = record {
  findings = take max_findings_per_result findings;
  truncated = ltb max_findings_per_result (length findings);
  skipped = skipped;
  files_checked = files_checked;
}

abbrev pub changed_or_empty : Option (List Text) → List Text
changed_or_empty none = []
changed_or_empty (some changed) = changed

abbrev pub keep_if {ℓ} : {A : Type ℓ} → (A → Bool) → List A → List A
keep_if p [] = []
keep_if p (x ∷ xs) = let rest = keep_if p xs in if p x then x ∷ rest else rest

-- FindingsClient.filter_changed
unfoldable pub filter_changed : List Finding → Option (List Text) → List Finding
unfolding mem
filter_changed findings changed =
    keep_if (λ (f : Finding). mem f.path (changed_or_empty changed)) findings

module _ (is_space : ℕ → Bool) where
  abbrev pub lstrip : Text → Text
  lstrip [] = []
  lstrip (c ∷ s) = let rest = lstrip s in if is_space c then rest else c ∷ s

  -- `\s+` to one space. A run at the end, which strip() has removed, would leave one space.
  abbrev pub collapse : Text → Text
  collapse [] = []
  collapse (c ∷ []) = if is_space c then 32 ∷ [] else c ∷ []
  collapse (c ∷ d ∷ s) =
      let rest = collapse (d ∷ s) in
      if is_space c then (if is_space d then rest else 32 ∷ rest) else c ∷ rest

  abbrev pub rstrip : Text → Text
  rstrip [] = []
  rstrip (c ∷ s) = elim (rstrip s) [ [] ↦ if is_space c then [] else c ∷ [] | d ∷ t ↦ c ∷ d ∷ t ]

  -- normalize_context
  unfoldable pub normalize_context : Text → Text
  normalize_context context = collapse (rstrip (lstrip context))

-- read_line on the file's text: `lines[n - 1].rstrip("\r")`, or nothing where it raises.
unfoldable pub line_of : Text → ℕ → Option Text
unfolding split_lines
line_of data' zero = none
line_of data' (suc n) = elim (get_elem? (split_lines data') n) [
  | none ↦ none
  | some l ↦ some (strip_cr l)
]

abbrev pub line_or_empty : Option Text → ℕ → Text
line_or_empty none n = []
line_or_empty (some t) n = elim (line_of t n) [ none ↦ [] | some l ↦ l ]

-- What an adapter extracts from its tool's output. An absent key reads as 0 or "", and numbers are not
-- negative.
pub record Record : Type 0 where
  pub path : Text
  pub rule : Text
  pub line : ℕ
  pub column : ℕ
  pub end_line : ℕ
  pub end_column : ℕ
  pub severity : Text
  pub message : Text
  pub snippet : Text

-- `raw_sev in _SEVERITIES`, by the severity.
unfoldable pub parse_severity : Text → Option Severity
unfolding text_eq
parse_severity t =
    if text_eq t (codes "error")
    then some error
    else if text_eq t (codes "warning")
    then some warning
    else if text_eq t (codes "note")
    then some note
    else none

-- What these functions use of the worktree, of urllib's path rules and of `str`.
pub record Worktree : Type 0 where
  pub urlparse : Text → Option (Text × Text)
  pub unquote : Text → Text
  pub abs_root : Text
  pub safe_path : Text → Option Text
  pub read_text : Text → Option Text
  pub is_space : ℕ → Bool
  pub lower : Text → Text

module _ (tree : Worktree) where
  abbrev pub normalized : Text → Option Text
  normalized uri = normalize_uri tree.urlparse tree.unquote tree.abs_root uri

  abbrev pub read_anchor : ℕ → Option Text → Text
  read_anchor line none = []
  read_anchor line (some full) = line_or_empty (tree.read_text full) line

  -- resolve_context
  unfoldable pub resolve_context : Text → ℕ → Text → Text
  unfolding line_of
  resolve_context path line (c ∷ snippet) = c ∷ snippet
  resolve_context path zero [] = []
  resolve_context [] (suc line) [] = []
  resolve_context (c ∷ path) (suc line) [] =
      read_anchor (suc line) (tree.safe_path (normalize_path (c ∷ path)))

  abbrev pub mapped_severity : (Text → Severity) → Text → Option Severity → Severity
  mapped_severity severity_map raw none = severity_map raw
  mapped_severity severity_map raw (some s) = s

  -- `severity_map` is smap.get(raw, default_severity).
  abbrev pub severity_of : (Text → Severity) → Text → Severity
  severity_of severity_map raw =
      mapped_severity severity_map (tree.lower raw) (parse_severity (tree.lower raw))

  abbrev pub finding_of : Text → Text → (Text → Severity) → Text → Record → Finding
  finding_of capability operation severity_map at rec = record {
    capability = capability;
    operation = operation;
    rule = rec.rule;
    path = at;
    line = rec.line;
    column = rec.column;
    end_line = rec.end_line;
    end_column = rec.end_column;
    severity = severity_of severity_map rec.severity;
    message = rec.message;
    context = normalize_context tree.is_space (resolve_context at rec.line rec.snippet);
  }

  abbrev pub onto : Option Text → (Text → Finding) → List Finding → List Finding
  onto none finding rest = rest
  onto (some at) finding rest = finding at ∷ rest

  -- FindingsClient.from_records
  unfoldable pub from_records : Text → Text → (Text → Severity) → List Record → List Finding
  unfolding resolve_context normalize_context parse_severity normalize_uri
  from_records capability operation severity_map [] = []
  from_records capability operation severity_map (rec ∷ records) =
      onto (normalized rec.path) (λ n. finding_of capability operation severity_map n rec)
        (from_records capability operation severity_map records)
