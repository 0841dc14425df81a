-- ===== src/Checks/Batches.antt =====
-- `batches` of capabilities/rw-checks/tools/_runner.py: the files of an invocation, cut to what one
-- command line takes.
use rw_checks_codecollection.Prelude.{
  ℕ, ◌+◌, ◌≤◌, ◌≡◌, refl, sym, ap, ◌∙◌, ◌⊎◌, inl, inr, Bool, true, false, ◌&&◌, ◌||◌, List, [], ◌∷◌,
  ◌++◌, append_assoc, append-nil, ltb, leb, if◌then◌else◌, Text, length, length-append, byte_len,
  arith, Bool-cases, All,
}

abbrev pub max_batch_files : ℕ
max_batch_files = 200

abbrev pub max_batch_argv_bytes : ℕ
max_batch_argv_bytes = 65536

abbrev pub is_filled : List Text → Bool
is_filled [] = false
is_filled (f ∷ fs) = true

abbrev pub flushed : List Text → List (List Text)
flushed [] = []
flushed (f ∷ fs) = (f ∷ fs) ∷ []

-- The test for starting a new batch.
abbrev pub is_full : List Text → ℕ → ℕ → Bool
is_full current size n =
    is_filled current
    && (leb max_batch_files (length current) || ltb max_batch_argv_bytes (size + n))

-- The loop: `current` and `size` are its variables.
unfoldable pub batch_loop : List Text → ℕ → List Text → List (List Text)
batch_loop current size [] = flushed current
batch_loop current size (f ∷ fs) =
    let n = byte_len f in
    let fresh = batch_loop (f ∷ []) n fs in
    let grown = batch_loop (current ++ f ∷ []) (size + n) fs in
    if is_full current size n then current ∷ fresh else grown

unfoldable pub batches : List Text → List (List Text)
unfolding batch_loop
batches files = batch_loop [] 0 files

abbrev pub concat : List (List Text) → List Text
concat [] = []
concat (b ∷ bs) = b ++ concat bs

abbrev pub bytes_of : List Text → ℕ
bytes_of [] = 0
bytes_of (f ∷ fs) = byte_len f + bytes_of fs

-- At least one file, at most MAX_BATCH_FILES, and at most MAX_BATCH_ARGV_BYTES bytes of names unless it
-- is a single file.
pub record IsBatch (files : List Text) : Type 0 where
  pub some_file : 1 ≤ length files
  pub few : length files ≤ max_batch_files
  pub small : (bytes_of files ≤ max_batch_argv_bytes) ⊎ (length files ≡ 1)

concat-flushed : (current : List Text) → concat (flushed current) ≡ current
concat-flushed [] = refl
concat-flushed (f ∷ fs) = append-nil (f ∷ fs)

concat-batch_loop :
    (current : List Text) (size : ℕ) (files : List Text)
    → concat (batch_loop current size files) ≡ current ++ files
unfolding batch_loop
concat-batch_loop current size [] = concat-flushed current ∙ sym (append-nil current)
concat-batch_loop current size (f ∷ fs) =
    let n = byte_len f in
    elim (Bool-cases (is_full current size n)) [
      | inl full ↦ rw full (ap (λ r. current ++ r) (concat-batch_loop (f ∷ []) n fs))
      | inr room ↦
          rw room
            (concat-batch_loop (current ++ f ∷ []) (size + n) fs ∙ append_assoc current (f ∷ []) fs)
    ]

-- The batches hold every file once and in order: nothing is dropped, repeated or moved.
pub concat-batches : (files : List Text) → concat (batches files) ≡ files
unfolding batches
concat-batches files = concat-batch_loop [] 0 files

-- What the loop knows of its variables.
record IsCurrent (current : List Text) (size : ℕ) : Type 0 where
  sized : bytes_of current ≡ size
  few : length current ≤ max_batch_files
  small : (size ≤ max_batch_argv_bytes) ⊎ (length current ≡ 1)

bytes_of-append : (xs ys : List Text) → bytes_of (xs ++ ys) ≡ bytes_of xs + bytes_of ys
bytes_of-append [] ys = omega arith
bytes_of-append (x ∷ xs) ys = omega (arith, bytes_of-append xs ys)

one-IsCurrent : (f : Text) → IsCurrent (f ∷ []) (byte_len f)
one-IsCurrent f = record { sized = omega arith; few = omega arith; small = inr refl }

current-IsBatch :
    (current : List Text) (size : ℕ)
    → is_filled current ≡ true
    → IsCurrent current size
    → IsBatch current
current-IsBatch [] size h is = cc
current-IsBatch (f ∷ fs) size h is = record {
  some_file = omega arith;
  few = is.few;
  small = ground (arith, is.small, is.sized);
}

flushed-IsBatch :
    (current : List Text) (size : ℕ) → IsCurrent current size → All IsBatch (flushed current)
flushed-IsBatch [] size is = tt
flushed-IsBatch (f ∷ fs) size is = (current-IsBatch (f ∷ fs) size refl is, tt)

grown-IsCurrent :
    (current : List Text) (size : ℕ) (f : Text)
    → is_full current size (byte_len f) ≡ false
    → IsCurrent current size
    → IsCurrent (current ++ f ∷ []) (size + byte_len f)
grown-IsCurrent [] size f h is = record {
  sized = omega (arith, is.sized);
  few = omega arith;
  small = inr refl;
}
grown-IsCurrent (g ∷ gs) size f h is = record {
  sized = omega (arith, is.sized, bytes_of-append (g ∷ gs) (f ∷ []));
  few = ground (arith, length-append (g ∷ gs) (f ∷ []));
  small = inl (ground arith);
}

batch_loop-IsBatch :
    (current : List Text) (size : ℕ) (files : List Text)
    → IsCurrent current size
    → All IsBatch (batch_loop current size files)
unfolding batch_loop
batch_loop-IsBatch current size [] is = flushed-IsBatch current size is
batch_loop-IsBatch current size (f ∷ fs) is =
    elim (Bool-cases (is_full current size (byte_len f))) [
      | inl full ↦ rw full (
        current-IsBatch current size (ground arith) is,
        batch_loop-IsBatch (f ∷ []) (byte_len f) fs (one-IsCurrent f),
      )
      | inr room ↦ rw room (
          batch_loop-IsBatch (current ++ f ∷ []) (size + byte_len f) fs
            (grown-IsCurrent current size f room is))
    ]

-- Every batch is a proper one: not empty, at most MAX_BATCH_FILES files, and within
-- MAX_BATCH_ARGV_BYTES bytes of names unless it is one file that is longer on its own.
pub batches-IsBatch : (files : List Text) → All IsBatch (batches files)
unfolding batches
batches-IsBatch files =
    batch_loop-IsBatch [] 0 files
      (record { sized = refl; few = omega arith; small = inl (omega arith) })
