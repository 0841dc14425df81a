-- ===== src/Faults.antt =====
-- Exceptions as values: the classes of sdk/runwhen_capability/repo_fs.py that the callers tell apart,
-- with their messages, and the result of a call that may raise.
use rw_checks_codecollection.Prelude.{
  ◌≡◌, refl, ◌⊎◌, inl, inr, Bool, true, false, if◌then◌else◌, String, Option, none, some, Text,
}

pub data Kind : Type 0 where
  path_escapes_tree binary_file invalid_pattern file_not_found not_a_directory os_error : Kind
  tree_not_materialized value_error other : Kind

pub record Exn : Type 0 where
  pub kind : Kind
  pub message : Text

pub data Result {ℓ} (A : Type ℓ) : Type ℓ where
  ok : A → Result A
  raise : Exn → Result A

infixl 5 ◌>>=◌
abbrev pub ◌>>=◌ {ℓ κ} : {A : Type ℓ} {B : Type κ} → Result A → (A → Result B) → Result B
ok a >>= f = f a
raise e >>= f = raise e

pub ok-injective {ℓ} : {A : Type ℓ} {a b : A} → ok a ≡ ok b → a ≡ b
ok-injective h = cc

-- A chain that returned: so did the first call, and the rest on its value.
pub >>=-eq-ok {ℓ κ} :
    {A : Type ℓ} {B : Type κ} (call : Result A) (next : A → Result B) {out : B}
    → (call >>= next) ≡ ok out
    → (value : A) × (call ≡ ok value) × (next value ≡ ok out)
>>=-eq-ok (ok value) next returned = (value, refl, returned)
>>=-eq-ok (raise exn) next returned = absurd (cc)

-- A call that returned hands its value on.
pub >>=-ok {ℓ κ} :
    {A : Type ℓ} {B : Type κ} {call : Result A} {value : A}
    → call ≡ ok value
    → (next : A → Result B) → (call >>= next) ≡ next value
>>=-ok h next = rw h refl

pub Result-cases {ℓ} :
    {A : Type ℓ} (m : Result A) → ((a : A) × (m ≡ ok a)) ⊎ ((e : Exn) × (m ≡ raise e))
Result-cases (ok a) = inl (a, refl)
Result-cases (raise e) = inr (e, refl)

-- Inversion of a guard that raises.
pub if_raise-eq-ok {ℓ} :
    {A : Type ℓ} (b : Bool) (e : Exn) (m : Result A) {a : A}
    → (if b then raise e else m) ≡ ok a
    → (b ≡ false) × (m ≡ ok a)
if_raise-eq-ok true e m h = absurd (cc)
if_raise-eq-ok false e m h = (refl, h)

-- Inversion of a bind and of a guard that raised.
pub >>=-eq-raise {ℓ κ} :
    {A : Type ℓ} {B : Type κ} (m : Result A) (f : A → Result B) {e : Exn}
    → (m >>= f) ≡ raise e
    → (m ≡ raise e) ⊎ ((a : A) × (m ≡ ok a) × (f a ≡ raise e))
>>=-eq-raise (ok a) f h = inr (a, refl, h)
>>=-eq-raise (raise x) f h = inl (cc)

pub if_raise-eq-raise {ℓ} :
    {A : Type ℓ} (b : Bool) (x : Exn) (m : Result A) {e : Exn}
    → (if b then raise x else m) ≡ raise e
    → (b ≡ true) ⊎ (m ≡ raise e)
if_raise-eq-raise true x m h = inl refl
if_raise-eq-raise false x m h = inr h

-- error_code: the code of a fault of the caller's input. A tree that is not materialized and any
-- other exception have none.
unfoldable pub error_code : Kind → Option String
error_code path_escapes_tree = some "PATH_ESCAPES_TREE"
error_code binary_file = some "BINARY_FILE"
error_code invalid_pattern = some "INVALID_PATTERN"
error_code file_not_found = some "NOT_FOUND"
error_code not_a_directory = some "NOT_A_DIRECTORY"
error_code os_error = some "UNREADABLE"
error_code _ = none
