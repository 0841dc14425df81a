-- ===== src/Sarif/Bounds.antt =====
-- The bounds of sdk/runwhen_capability/sarif.py: on the report's bytes and on the number of findings.
use rw_checks_codecollection.Prelude.{
  ℕ, zero, suc, ◌*◌, ◌≤◌, ◌≡◌, refl, sym, ap, ap₂, ◌∙◌, ◌↔◌, inl, inr, false, List, [], ◌∷◌, Option,
  ltb, Text, length, take, map, length-take, byte_len, arith, Bool-cases, not_ltb→le,
}
use rw_checks_codecollection.Faults.{Result, ok, ok-injective, >>=-eq-ok}
use rw_checks_codecollection.Findings.{Severity, Finding, max_findings_per_result, cap, Worktree}
use rw_checks_codecollection.Sarif.{
  sarif_byte_budget, check_size, SarifRun, flatten, finding_from, parse,
}

byte_len-bounds : (t : Text) → (length t ≤ byte_len t) × (byte_len t ≤ 4 * length t)
byte_len-bounds [] = (omega arith, omega arith)
byte_len-bounds (c ∷ t) = (ground (arith, byte_len-bounds t), ground (arith, byte_len-bounds t))

-- The guard decides by characters where it can, and always as the exact byte count would: it raises
-- exactly where the text takes more than SARIF_BYTE_BUDGET bytes.
pub check_size_iff : (t : Text) → (check_size t ≡ ok tt) ↔ (byte_len t ≤ sarif_byte_budget)
unfolding check_size
check_size_iff t = (there, back)
  where
    there : check_size t ≡ ok tt → byte_len t ≤ sarif_byte_budget
    there h = elim (Bool-cases (ltb sarif_byte_budget (length t))) [
      | inl over ↦ cc (rw over at h)
      | inr under ↦ elim (Bool-cases (ltb sarif_byte_budget (length t * 4))) [
        | inr small ↦ omega (arith, (byte_len-bounds t).1, not_ltb→le _ _ small)
        | inl near ↦ elim (Bool-cases (ltb sarif_byte_budget (byte_len t))) [
          | inl many ↦ cc (rw (under, near, many) at h)
          | inr fits ↦ not_ltb→le _ _ fits
        ]
      ]
    ]

    back : byte_len t ≤ sarif_byte_budget → check_size t ≡ ok tt
    back h =
        let under : ltb sarif_byte_budget (length t) ≡ false =
          ground (arith, (byte_len-bounds t).0) in
        let fits : ltb sarif_byte_budget (byte_len t) ≡ false = ground arith in
        elim (Bool-cases (ltb sarif_byte_budget (length t * 4))) [
          | inl near ↦ rw (under, near, fits) refl
          | inr small ↦ rw (under, small) refl
        ]

length-map : {A B : Type 0} (f : A → B) (xs : List A) → length (map f xs) ≡ length xs
length-map f [] = refl
length-map f (x ∷ xs) = omega (arith, length-map f xs)

take-map-take :
    {A B : Type 0} (f : A → B) (k : ℕ) (xs : List A)
    → take k (map f (take (suc k) xs)) ≡ take k (map f xs)
take-map-take f zero xs = refl
take-map-take f (suc k) [] = refl
take-map-take f (suc k) (x ∷ xs) = ap (◌∷◌ (f x)) (take-map-take f k xs)

ltb-length-take :
    {A B : Type 0} (f : A → B) (k : ℕ) (xs : List A)
    → ltb k (length (map f (take (suc k) xs))) ≡ ltb k (length (map f xs))
ltb-length-take f k xs =
    ground (arith, length-map f (take (suc k) xs), length-map f xs, length-take (suc k) xs)

-- Stopping one finding past the ceiling loses nothing of the answer: capping what parse returns gives
-- the very result that capping the whole flattened report would give, its truncation mark included.
pub cap-parse :
    {Properties : Type 0} (no_properties : Properties)
    (severity_fn : Text → Text → Properties → Severity) (urljoin : Text → Text → Option Text)
    (tree : Worktree) (loads : Text → Result (List (SarifRun Properties)))
    (capability operation t : Text) (runs : List (SarifRun Properties)) (findings : List Finding)
    (skipped : Option Text) (files_checked : ℕ)
    → loads t ≡ ok runs
    → parse no_properties severity_fn urljoin tree loads capability operation t ≡ ok findings
    → cap findings skipped files_checked
      ≡ cap
          (map
            (finding_from no_properties severity_fn urljoin tree capability operation)
            (flatten no_properties severity_fn urljoin tree runs))
          skipped
          files_checked
unfolding parse cap
cap-parse no_properties severity_fn urljoin tree loads capability operation t runs findings skipped
      files_checked loaded h =
    let (_, _, k) = >>=-eq-ok (check_size t) _ h in
    let (runs', got, e) = >>=-eq-ok (loads t) _ k in
    let same : runs' ≡ runs = ok-injective (sym got ∙ loaded) in
    let f = finding_from no_properties severity_fn urljoin tree capability operation in
    let all = flatten no_properties severity_fn urljoin tree runs in
    let is : map f (take (suc max_findings_per_result) all) ≡ findings =
      ap
        (λ rs.
          map f (
            take (suc max_findings_per_result) (flatten no_properties severity_fn urljoin tree rs)))
        (sym same)
      ∙ ok-injective e in
    let kept =
      ap (take max_findings_per_result) (sym is) ∙ take-map-take f max_findings_per_result all in
    let mark =
      ap (λ (fs : List Finding). ltb max_findings_per_result (length fs)) (sym is)
      ∙ ltb-length-take f max_findings_per_result all in
    ap₂
      (λ fs b. record {
        findings = fs;
        truncated = b;
        skipped = skipped;
        files_checked = files_checked;
      })
      kept mark
