-- ===== src/Tests/Serve.antt =====
-- Polls of sdk/runwhen_capability/serve.py at concrete inputs.
use rw_checks_codecollection.Prelude.{
  ◌≡◌, refl, [], ◌∷◌, none, some, Text, codes, text_eq, arith, mem, remove,
}
use rw_checks_codecollection.Json.{Json, null}
use rw_checks_codecollection.Faults.{Exn, Result, ok, raise, os_error}
use rw_checks_codecollection.Serve.{
  Pod, stateful, is_safe_scope_id, evict, retain_or_wipe_scope, TaskHostRequest, Reply, response,
  ok_result, posted, Polled, serve_task, poll_once, serve,
}
use rw_checks_codecollection.Paths.{path_name, split_slash}
use rw_checks_codecollection.Serve.Warm.{IsWarm}
use rw_checks_codecollection.Serve.Poll.{serve-IsWarm}

abbrev task : TaskHostRequest
task = record { request_id = codes "r1"; request = null; credentials = null; scope_id = codes "s3" }

abbrev make_any : Text → Result (Unit {0})
make_any _ = ok tt

abbrev run_any : TaskHostRequest → Result Json
run_any _ = ok null

abbrev repr : Text → Text
repr t = t

-- A pod that keeps two scopes, full.
abbrev full_pod : Pod
full_pod = record { scopes = codes "s1" ∷ codes "s2" ∷ []; dirs = codes "s1" ∷ codes "s2" ∷ [] }

abbrev moved_pod : Pod
moved_pod = record { scopes = codes "s2" ∷ codes "s3" ∷ []; dirs = codes "s2" ∷ codes "s3" ∷ [] }

abbrev token : Text
token = codes "t"

abbrev reply : Text → Reply
reply _ = response 200 (some task)

abbrev moved : Polled
moved = record { pod = moved_pod; acts = posted (codes "r1") (ok_result null) token ∷ [] }

full_pod-served :
    serve stateful 2 make_any run_any repr ((some token, reply, none) ∷ []) full_pod ≡ ok moved
unfolding serve poll_once serve_task is_safe_scope_id path_name split_slash text_eq
    retain_or_wipe_scope evict mem remove
full_pod-served = refl

full_pod-IsWarm : IsWarm stateful 2 full_pod
unfolding mem text_eq
full_pod-IsWarm = record {
  tracking = record {
    tracked = λ d h. h;
    scopes_unique = (refl, (refl, tt));
    dirs_unique = (refl, (refl, tt));
  };
  few = omega arith;
  clean = λ e. absurd (cc);
}

serve-IsWarm_example : IsWarm stateful 2 moved_pod
serve-IsWarm_example =
    serve-IsWarm stateful 2 make_any run_any repr ((some token, reply, none) ∷ []) full_pod moved
      full_pod-IsWarm full_pod-served

abbrev too_long : Exn
too_long = record { kind = os_error; message = codes "File name too long" }

abbrev make_none : Text → Result (Unit {0})
make_none _ = raise too_long
