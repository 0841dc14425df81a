-- ===== src/Models.antt =====
-- sdk/runwhen_capability/models.py: the result models of the worktree tasks, and what
-- `model_dump(mode="json")` makes of them: an object of the fields in declaration order, with None
-- as null.
use rw_checks_codecollection.Prelude.{
  ℕ, String, Bool, List, [], ◌∷◌, Option, none, some, map, Text, codes,
}
use rw_checks_codecollection.Json.{Json, null, bool, str, arr, obj, Fields, end, field, num, items}

pub record ReadResult : Type 0 where
  pub path : Text
  pub content : Text
  pub start_line : ℕ
  pub end_line : ℕ
  pub total_lines : ℕ
  pub truncated : Bool

pub record GrepMatch : Type 0 where
  pub path : Text
  pub line : ℕ
  pub text : Text
  pub before : List Text
  pub after : List Text

pub record GrepResult : Type 0 where
  pub matches : List GrepMatch
  pub truncated : Bool
  pub unreadable : List Text
  pub unreadable_truncated : Bool

pub record ReadRange : Type 0 where
  pub start : ℕ
  pub stop : ℕ
  pub content : Text

pub record ReadRangesResult : Type 0 where
  pub path : Text
  pub ranges : List ReadRange
  pub total_lines : ℕ
  pub truncated : Bool

pub data EntryType : Type 0 where
  file dir other : EntryType

pub record LsEntry : Type 0 where
  pub path : Text
  pub kind : EntryType
  pub size : ℕ

pub record LsResult : Type 0 where
  pub entries : List LsEntry
  pub truncated : Bool
  pub unreadable : List Text
  pub unreadable_truncated : Bool

-- OpResult of repo_query.py: what one op of a query answers.
pub data OpResult : Type 0 where
  grep_result : GrepResult → OpResult
  read_result : ReadRangesResult → OpResult
  ls_result : LsResult → OpResult

pub record QueryError : Type 0 where
  pub code : String
  pub message : Text

pub record QueryOpResult : Type 0 where
  pub index : ℕ
  pub op : Option String
  pub result : Option OpResult
  pub error : Option QueryError

pub record QueryResult : Type 0 where
  pub results : List QueryOpResult
  pub truncated : Bool

abbrev text_items : List Text → List Json
text_items [] = []
text_items (t ∷ ts) = str t ∷ text_items ts

unfoldable pub dump_match : GrepMatch → Json
dump_match m = obj (
    field "path" (str m.path) (
      field "line" (num m.line) (
        field "text" (str m.text) (
          field "before" (arr (items (text_items m.before)))
            (field "after" (arr (items (text_items m.after))) end)))))

unfoldable pub dump_range : ReadRange → Json
dump_range r =
    obj
      (field "start" (num r.start) (field "end" (num r.stop) (field "content" (str r.content) end)))

abbrev type_text : EntryType → Text
type_text file = codes "file"
type_text dir = codes "dir"
type_text other = codes "other"

unfoldable pub dump_ls_entry : LsEntry → Json
dump_ls_entry e = obj (
    field "path" (str e.path)
      (field "type" (str (type_text e.kind)) (field "size" (num e.size) end)))

-- The fields behind the list of a grep or ls result.
abbrev pub dump_flags : Bool → List Text → Bool → Fields
dump_flags truncated unreadable unreadable_truncated = field "truncated" (bool truncated) (
    field "unreadable" (arr (items (text_items unreadable)))
      (field "unreadableTruncated" (bool unreadable_truncated) end))

unfoldable pub dump_result : OpResult → Json
dump_result (grep_result r) = obj (
    field "matches" (arr (items (map dump_match r.matches)))
      (dump_flags r.truncated r.unreadable r.unreadable_truncated))
dump_result (read_result r) = obj (
    field "path" (str r.path) (
      field "ranges" (arr (items (map dump_range r.ranges)))
        (field "totalLines" (num r.total_lines) (field "truncated" (bool r.truncated) end))))
dump_result (ls_result r) = obj (
    field "entries" (arr (items (map dump_ls_entry r.entries)))
      (dump_flags r.truncated r.unreadable r.unreadable_truncated))

abbrev dump_op : Option String → Json
dump_op none = null
dump_op (some name) = str (codes name)

abbrev dump_result? : Option OpResult → Json
dump_result? none = null
dump_result? (some r) = dump_result r

abbrev dump_error? : Option QueryError → Json
dump_error? none = null
dump_error? (some e) = obj (field "code" (str (codes e.code)) (field "message" (str e.message) end))

unfoldable pub dump_entry : QueryOpResult → Json
unfolding dump_result
dump_entry e = obj (
    field "index" (num e.index) (
      field "op" (dump_op e.op)
        (field "result" (dump_result? e.result) (field "error" (dump_error? e.error) end))))

unfoldable pub dump_query : QueryResult → Json
dump_query r = obj (
    field "results" (arr (items (map dump_entry r.results)))
      (field "truncated" (bool r.truncated) end))
