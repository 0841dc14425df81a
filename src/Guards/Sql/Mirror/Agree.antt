-- ===== src/Guards/Sql/Mirror/Agree.antt =====
-- The two searches for a directive in capabilities/rw-checks/guards.py agree.
use rw_checks_codecollection.Prelude.{ℕ, ◌≡◌, Bool, true, not, ◌&&◌, ◌++◌, Text}
use rw_checks_codecollection.Guards.Sql.{
  is_space, splits, Encoding, encode, bom_of, sql_marker_present,
}
use rw_checks_codecollection.Guards.Sql.Mirror.Bytes.{is_blank}

-- White space that str.lstrip drops and the pattern of bytes does not know, such as a no-break space.
abbrev pub is_odd_blank : ℕ → Bool
is_odd_blank c = is_space c && (not (splits c) && not (is_blank c))

-- A text whose bytes, in an encoding and with its byte order mark or without, have the marker of a directive.
abbrev pub IsSeen : Encoding → Text → Type 0
IsSeen e text =
    (sql_marker_present (encode e text) ≡ true)
    × (sql_marker_present (bom_of e ++ encode e text) ≡ true)
