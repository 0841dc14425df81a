-- ===== src/Findings/Laws.antt =====
-- The lists of findings that sdk/runwhen_capability/findings.py returns.
use rw_checks_codecollection.Prelude.{
  ℕ, zero, suc, ◌≤◌, ◌<◌, ◌≡◌, refl, ap, ◌∙◌, true, false, List, [], ◌∷◌, Option, none, some, Text,
  length, take, length-take, take_all, All, arith, ltb→lt, not_ltb→le,
}
use rw_checks_codecollection.Findings.{
  Severity, Finding, max_findings_per_result, cap, Record, Worktree, normalized, onto, from_records,
}
use rw_checks_codecollection.Findings.Uri.Parts.{stays}
use rw_checks_codecollection.Findings.Uri.Safe.{normalize_uri-stays}

-- A capped result has at most MAX_FINDINGS_PER_RESULT findings, the first of the list; it is marked as
-- truncated exactly where it lacks some of the list.
pub cap-honest :
    (findings : List Finding) (skipped : Option Text) (files_checked : ℕ)
    → let r = cap findings skipped files_checked in
      (length r.findings ≤ max_findings_per_result)
      × (r.findings ≡ take (length r.findings) findings)
      × (r.truncated ≡ false → r.findings ≡ findings)
      × (r.truncated ≡ true → length r.findings < length findings)
unfolding cap
cap-honest findings skipped files_checked =
    let n = length-take max_findings_per_result findings in
    (
      omega (arith, n),
      taken max_findings_per_result findings,
      (λ h. take_all max_findings_per_result findings (not_ltb→le _ _ h)),
      λ h. omega (arith, n, ltb→lt _ _ h),
    )
  where
    taken : (k : ℕ) (xs : List Finding) → take k xs ≡ take (length (take k xs)) xs
    taken zero xs = refl
    taken (suc k) [] = refl
    taken (suc k) (x ∷ xs) = ap (◌∷◌ x) (taken k xs)

-- The paths of findings stay in the worktree.
abbrev pub PathStays : Finding → Type 0
PathStays f = stays f.path ≡ true

onto-PathStays :
    (tree : Worktree) (uri : Text) (at : Option Text) (finding : Text → Finding)
    (rest : List Finding)
    → normalized tree uri ≡ at
    → ((n : Text) → (finding n).path ≡ n)
    → All PathStays rest
    → All PathStays (onto tree at finding rest)
onto-PathStays tree uri none finding rest e at h = h
onto-PathStays tree uri (some n) finding rest e at h =
    (ap stays (at n) ∙ normalize_uri-stays tree.urlparse tree.unquote tree.abs_root uri n e, h)

-- Every finding that from_records makes has a path without "..", whatever paths the records have.
pub from_records-PathStays :
    (tree : Worktree) (capability operation : Text) (severity_map : Text → Severity)
    (records : List Record)
    → All PathStays (from_records tree capability operation severity_map records)
unfolding from_records
from_records-PathStays tree capability operation severity_map [] = tt
from_records-PathStays tree capability operation severity_map (rec ∷ records) =
    onto-PathStays tree rec.path (normalized tree rec.path) _ _ refl (λ n. refl)
      (from_records-PathStays tree capability operation severity_map records)
