-- ===== src/Serve.antt =====
-- One poll of sdk/runwhen_capability/serve.py: the scopes that a pod keeps warm, and what it posts. The
-- relay, the token file, mkdir and the task host are parameters.
pub mod Scope
pub mod Warm
pub mod Poll
use rw_checks_codecollection.Prelude.{
  ℕ, Bool, true, false, not, ◌&&◌, List, [], ◌∷◌, ◌++◌, Option, none, some, ltb, ◌==◌,
  if◌then◌else◌, Text, codes, text_eq, length, mem, remove,
}
use rw_checks_codecollection.Paths.{no_part, path_name, dot_dot}
use rw_checks_codecollection.Json.{Json}
use rw_checks_codecollection.Faults.{Exn, Result, ok, raise, ◌>>=◌}

-- _is_safe_scope_id
unfoldable pub is_safe_scope_id : Text → Bool
unfolding path_name text_eq
is_safe_scope_id scope_id =
    not (no_part scope_id)
    && not (text_eq scope_id dot_dot)
    && text_eq scope_id (path_name scope_id)

-- `scopes` is stateful_scopes, the least recently used first. `dirs` are the directories in workdir.
pub record Pod : Type 0 where
  pub scopes : List Text
  pub dirs : List Text

-- shutil.rmtree(workdir / scope_id, ignore_errors=True), where it succeeds
abbrev pub wipe : Text → Pod → Pod
wipe scope_id pod = record pod { dirs = remove scope_id pod.dirs }

-- The eviction loop, on the scopes that are left and the directories.
unfoldable pub evict : ℕ → List Text → List Text → Pod
evict max_scopes [] dirs = record { scopes = []; dirs = dirs }
evict max_scopes (oldest ∷ scopes) dirs =
    let fewer = evict max_scopes scopes (remove oldest dirs) in
    if ltb max_scopes (length (oldest ∷ scopes))
    then fewer
    else record { scopes = oldest ∷ scopes; dirs = dirs }

-- capability.execution_mode
pub data Mode : Type 0 where
  stateless stateful : Mode

unfoldable pub retain_or_wipe_scope : Mode → ℕ → Text → Pod → Pod
unfolding evict
retain_or_wipe_scope stateless max_scopes scope_id pod = wipe scope_id pod
retain_or_wipe_scope stateful max_scopes scope_id pod =
    evict max_scopes (remove scope_id pod.scopes ++ scope_id ∷ []) pod.dirs

-- scope_dir.mkdir(parents=True, exist_ok=True), where it succeeds
abbrev pub made : Text → Pod → Pod
made scope_id pod = record pod {
  dirs = if mem scope_id pod.dirs then pod.dirs else pod.dirs ++ scope_id ∷ [];
}

pub record TaskHostRequest : Type 0 where
  pub request_id : Text
  pub request : Json
  pub credentials : Json
  pub scope_id : Text

-- What the poll's POST comes to: a transport failure, or a status and the request that its body
-- validates as.
pub data Reply : Type 0 where
  transport_error : Reply
  response : ℕ → Option TaskHostRequest → Reply

pub data Payload : Type 0 where
  ok_result : Json → Payload
  failed_result : Text → Payload

-- What a poll does outside the pod: wait, or post a result with a bearer token.
pub data Act : Type 0 where
  slept : Act
  posted : Text → Payload → Text → Act

pub record Polled : Type 0 where
  pub pod : Pod
  pub acts : List Act

-- _post_result. `reread` is the token file at this moment.
abbrev pub post_result : Text → Payload → Option Text → Text → Act
post_result request_id payload none fallback = posted request_id payload fallback
post_result request_id payload (some token) fallback = posted request_id payload token

-- `except Exception` around run_request
abbrev pub payload_of : Result Json → Payload
payload_of (ok result) = ok_result result
payload_of (raise exc) = failed_result exc.message

abbrev pub idle : Pod → Polled
idle pod = record { pod = pod; acts = slept ∷ [] }

module _ (mode : Mode) (max_scopes : ℕ) where
  module _ (mkdir : Text → Result (Unit {0})) (run_request : TaskHostRequest → Result Json)
      (repr : Text → Text) where
    abbrev pub refused : TaskHostRequest → Option Text → Text → Act
    refused task reread token =
        post_result task.request_id (failed_result (codes "invalid scopeId " ++ repr task.scope_id))
          reread token

    abbrev pub handled : TaskHostRequest → Option Text → Text → Pod → Polled
    handled task reread token pod = record {
      pod = retain_or_wipe_scope mode max_scopes task.scope_id (made task.scope_id pod);
      acts = post_result task.request_id (payload_of (run_request task)) reread token ∷ [];
    }

    -- The part of _poll_once behind the validation, by the test of the scope id.
    unfoldable pub serve_task : TaskHostRequest → Option Text → Text → Pod → Result Polled
    unfolding is_safe_scope_id retain_or_wipe_scope
    serve_task task reread token pod =
        if is_safe_scope_id task.scope_id
        then (mkdir task.scope_id >>= λ _. ok (handled task reread token pod))
        else ok (record { pod = pod; acts = refused task reread token ∷ [] })

    abbrev pub on_body : Option TaskHostRequest → Option Text → Text → Pod → Result Polled
    on_body none reread token pod = ok (idle pod)
    on_body (some task) reread token pod = serve_task task reread token pod

    abbrev pub on_reply : Reply → Option Text → Text → Pod → Result Polled
    on_reply transport_error reread token pod = ok (idle pod)
    on_reply (response status body) reread token pod =
        if status == 204
        then ok (record { pod = pod; acts = [] })
        else if not (status == 200)
        then ok (idle pod)
        else on_body body reread token pod

    -- _poll_once. `reply` answers the poll by its token, `reread` is the token file after the task.
    unfoldable pub poll_once : Option Text → (Text → Reply) → Option Text → Pod → Result Polled
    unfolding serve_task
    poll_once none reply reread pod = ok (idle pod)
    poll_once (some token) reply reread pod = on_reply (reply token) reread token pod

    -- The loop of serve, over what each poll finds.
    unfoldable pub serve : List (Option Text × (Text → Reply) × Option Text) → Pod → Result Polled
    unfolding poll_once
    serve [] pod = ok (record { pod = pod; acts = [] })
    serve ((token, reply, reread) ∷ polls) pod = poll_once token reply reread pod >>= λ p.
        serve polls p.pod >>= λ q. ok (record q { acts = p.acts ++ q.acts })
