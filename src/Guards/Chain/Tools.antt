-- ===== src/Guards/Chain/Tools.antt =====
-- What the guards of ruff and biome in capabilities/rw-checks/guards.py have made sure of, and where they raise.
use rw_checks_codecollection.Prelude.{◌≡◌, refl, List, [], ◌∷◌, Option, none, some, Text, codes}
use rw_checks_codecollection.Faults.{Result}
use rw_checks_codecollection.Guards.Document.{Doc, toml_table}
use rw_checks_codecollection.Guards.Files.{FilePath, Load, Files, safe, for_each, on_load, selected}
use rw_checks_codecollection.Guards.Tools.{load_toml}
use rw_checks_codecollection.Guards.Safe.{
  refuse-ne-safe, and_then-safe, each_file-safe, Given, Reads,
}
use rw_checks_codecollection.Guards.Chain.{
  try_resolve, Walked, onward, stopped, on_walked, chain_check, section_chain, ruff_keys, ruff_why,
  biome_keys, biome_why, ruff, load_jsonc, biome, chain_max_depth,
}
use rw_checks_codecollection.Guards.Chain.Closed.{Extends, Leads, IsClosed, chain-IsClosed}

-- From the file of a group on, whatever any file of its chain extends lies in the tree.
abbrev pub IsClosedFrom :
    Files → (FilePath → Load Doc) → List Text → FilePath → FilePath → Doc → Type 0
IsClosedFrom files load keys tree path doc =
    (q : FilePath) (e : Doc) (value : Text)
    → Leads files load keys (try_resolve files tree) (try_resolve files path) doc q e
    → Extends files keys e value
    → IsClosed files load keys (try_resolve files tree) q value

on_walked-safe : (w : Walked) → on_walked w ≡ safe → (seen : List FilePath) × (w ≡ onward seen)
on_walked-safe (onward seen) h = (seen, refl)
on_walked-safe (stopped r) h = absurd (refuse-ne-safe r h)

module _ (files : Files) (load : FilePath → Load Doc) (keys : List Text) (why : Text)
    (tree path : FilePath) where
  chain_check-IsClosedFrom :
      (doc : Doc)
      → chain_check files load keys why tree path doc ≡ safe
      → IsClosedFrom files load keys tree path doc
  unfolding chain_check
  chain_check-IsClosedFrom doc h q e value leads x =
      let (seen, went) = on_walked-safe _ h in
      chain-IsClosed files load keys why (try_resolve files tree) chain_max_depth
        (try_resolve files path ∷ []) {seen = seen} went leads value x

  section_chain-IsClosedFrom :
      (found : Option Doc)
      → section_chain files load keys why tree path found ≡ safe
      → (section : Doc) → found ≡ some section
      → IsClosedFrom files load keys tree path section
  section_chain-IsClosedFrom none h section e = absurd (cc)
  section_chain-IsClosedFrom (some s) h section e =
      let same : s ≡ section = cc in chain_check-IsClosedFrom section (rw same at h)

module _ (files : Files) (tree : FilePath) (paths : List FilePath) where
  abbrev own_check : FilePath → Doc → Result (Option Text)
  own_check path = chain_check files (load_toml files tree) ruff_keys ruff_why tree path

  abbrev project_check : FilePath → Doc → Result (Option Text)
  project_check path doc =
      section_chain files (load_toml files tree) ruff_keys ruff_why tree path
        (toml_table doc (codes "tool" ∷ codes "ruff" ∷ []))

  -- Where the guard of ruff lets it run, every ruff.toml, .ruff.toml and pyproject.toml could be read and
  -- parsed, and so could every file of the chain of extends that starts there, however many files it has:
  -- each value of each of them names a path that, resolved, lies in the resolved tree.
  pub ruff-IsClosedFrom :
      ruff files tree paths ≡ safe
      → ((path : FilePath)
          → Given files paths (codes "ruff.toml" ∷ codes ".ruff.toml" ∷ []) path
          → Reads
              (load_toml files tree path)
              (IsClosedFrom files (load_toml files tree) ruff_keys tree path))
        × ((path : FilePath)
            → Given files paths (codes "pyproject.toml" ∷ []) path
            → Reads (load_toml files tree path) (λ doc.
              (section : Doc)
              → toml_table doc (codes "tool" ∷ codes "ruff" ∷ []) ≡ some section
              → IsClosedFrom files (load_toml files tree) ruff_keys tree path section))
  unfolding ruff
  ruff-IsClosedFrom h =
      let (own, project) =
        and_then-safe
          (for_each (λ path. on_load tree path (own_check path) (load_toml files tree path))
            (selected files paths (codes "ruff.toml" ∷ codes ".ruff.toml" ∷ [])))
          (for_each (λ path. on_load tree path (project_check path) (load_toml files tree path))
            (selected files paths (codes "pyproject.toml" ∷ [])))
          h in
      (
        λ path g.
            let (doc, read, checked) =
              each_file-safe files tree paths _ (load_toml files tree) own_check own path g in
            (
              doc,
              read,
              chain_check-IsClosedFrom files (load_toml files tree) ruff_keys ruff_why tree path doc
                  checked,
            ),
        λ path g.
            let (doc, read, checked) =
              each_file-safe files tree paths _ (load_toml files tree) project_check project path
                g in
            (
              doc,
              read,
              section_chain-IsClosedFrom files (load_toml files tree) ruff_keys ruff_why tree path _
                  checked,
            ),
      )

  pub biome-IsClosedFrom :
      biome files tree paths ≡ safe
      → (path : FilePath) → Given files paths (codes "biome.json" ∷ codes "biome.jsonc" ∷ []) path
      → Reads
          (load_jsonc files tree path)
          (IsClosedFrom files (load_jsonc files tree) biome_keys tree path)
  unfolding biome
  biome-IsClosedFrom h path g =
      let (doc, read, checked) =
        each_file-safe files tree paths _ (load_jsonc files tree)
          (chain_check files (load_jsonc files tree) biome_keys biome_why tree) h path g in
      (
        doc,
        read,
        chain_check-IsClosedFrom files (load_jsonc files tree) biome_keys biome_why tree path doc
            checked,
      )
