-- ===== src/Serve/Poll.antt =====
-- What a poll of sdk/runwhen_capability/serve.py answers, and what a run of the loop leaves.
use rw_checks_codecollection.Prelude.{
  ℕ, ◌≡◌, sym, ap, subst, ◌⊎◌, inl, inr, true, false, not, List, [], ◌∷◌, Option, none, some, ◌==◌,
  if◌then◌else◌, Text, Bool-cases,
}
use rw_checks_codecollection.Json.{Json}
use rw_checks_codecollection.Faults.{Result, ok, ok-injective, >>=-eq-ok}
use rw_checks_codecollection.Serve.{
  is_safe_scope_id, Pod, Mode, TaskHostRequest, Reply, transport_error, response, Payload,
  failed_result, Act, slept, posted, Polled, payload_of, serve_task, on_body, on_reply, poll_once,
  serve,
}
use rw_checks_codecollection.Serve.Warm.{IsWarm, retain_or_wipe_scope-IsWarm}

-- The request that a poll receives: a readable token, status 200 and a body that validates.
abbrev received_from : Reply → Option TaskHostRequest
received_from transport_error = none
received_from (response status body) =
    if status == 204 then none else if not (status == 200) then none else body

abbrev pub received : Option Text → (Text → Reply) → Option TaskHostRequest
received none reply = none
received (some token) reply = received_from (reply token)

-- The answer that is posted for a request: the result of the task or its error, or a refusal.
abbrev pub IsAnswerOf : (TaskHostRequest → Result Json) → TaskHostRequest → List Act → Type 0
IsAnswerOf run_request task acts =
    (payload : Payload) × (token : Text) × (acts ≡ posted task.request_id payload token ∷ [])
    × ((is_safe_scope_id task.scope_id ≡ true → payload ≡ payload_of (run_request task))
        × (is_safe_scope_id task.scope_id ≡ false
            → (message : Text) × (payload ≡ failed_result message)))

module _ (mode : Mode) (max_scopes : ℕ) (mkdir : Text → Result (Unit {0}))
    (run_request : TaskHostRequest → Result Json) (repr : Text → Text) where
  -- Without a request nothing is posted and the pod stays as it is.
  abbrev Idle : Pod → Polled → Type 0
  Idle pod p = (p.pod ≡ pod) × ((p.acts ≡ []) ⊎ (p.acts ≡ slept ∷ []))

  abbrev pub PollAnswers : Option TaskHostRequest → Pod → Polled → Type 0
  PollAnswers none pod p = Idle pod p
  PollAnswers (some task) pod p =
      IsAnswerOf run_request task p.acts × (is_safe_scope_id task.scope_id ≡ false → p.pod ≡ pod)

  serve_task-pod :
      (task : TaskHostRequest) (reread : Option Text) (token : Text) (pod : Pod) (p : Polled)
      → serve_task mode max_scopes mkdir run_request repr task reread token pod ≡ ok p
      → is_safe_scope_id task.scope_id ≡ false
      → p.pod ≡ pod
  unfolding serve_task
  serve_task-pod task reread token pod p h unsafe =
      ap (λ (x : Polled). x.pod) (sym (ok-injective (rw unsafe at h)))

  -- Warmth, poll by poll.
  serve_task-IsWarm :
      (task : TaskHostRequest) (reread : Option Text) (token : Text) (pod : Pod) (p : Polled)
      → IsWarm mode max_scopes pod
      → serve_task mode max_scopes mkdir run_request repr task reread token pod ≡ ok p
      → IsWarm mode max_scopes p.pod
  unfolding serve_task
  serve_task-IsWarm task reread token pod p warm h =
      elim (Bool-cases (is_safe_scope_id task.scope_id)) [
        | inl safe ↦
            let (_, _, e) = >>=-eq-ok (mkdir task.scope_id) _ (rw safe at h) in
            subst (IsWarm mode max_scopes) (ap (λ (x : Polled). x.pod) (ok-injective e))
              (retain_or_wipe_scope-IsWarm mode max_scopes task.scope_id pod warm)
        | inr unsafe ↦
            subst (IsWarm mode max_scopes) (sym (serve_task-pod task reread token pod p h unsafe))
              warm
      ]

  PollAnswers-IsWarm :
      (task : Option TaskHostRequest) (reread : Option Text) (token : Text) (pod : Pod) (p : Polled)
      → IsWarm mode max_scopes pod
      → on_body mode max_scopes mkdir run_request repr task reread token pod ≡ ok p
      → IsWarm mode max_scopes p.pod
  PollAnswers-IsWarm none reread token pod p warm h =
      subst (IsWarm mode max_scopes) (ap (λ (x : Polled). x.pod) (ok-injective h)) warm
  PollAnswers-IsWarm (some task) reread token pod p warm h =
      serve_task-IsWarm task reread token pod p warm h

  on_reply-IsWarm :
      (reply : Reply) (reread : Option Text) (token : Text) (pod : Pod) (p : Polled)
      → IsWarm mode max_scopes pod
      → on_reply mode max_scopes mkdir run_request repr reply reread token pod ≡ ok p
      → IsWarm mode max_scopes p.pod
  on_reply-IsWarm transport_error reread token pod p warm h =
      subst (IsWarm mode max_scopes) (ap (λ (x : Polled). x.pod) (ok-injective h)) warm
  on_reply-IsWarm (response status body) reread token pod p warm h =
      elim (Bool-cases (status == 204)) [
        | inl empty ↦
            subst (IsWarm mode max_scopes)
              (ap (λ (x : Polled). x.pod) (ok-injective (rw empty at h))) warm
        | inr other ↦ elim (Bool-cases (status == 200)) [
          | inl fine ↦ PollAnswers-IsWarm body reread token pod p warm (rw (other, fine) at h)
          | inr failed ↦
              subst (IsWarm mode max_scopes)
                (ap (λ (x : Polled). x.pod) (ok-injective (rw (other, failed) at h))) warm
        ]
      ]

  poll_once-IsWarm :
      (token : Option Text) (reply : Text → Reply) (reread : Option Text) (pod : Pod) (p : Polled)
      → IsWarm mode max_scopes pod
      → poll_once mode max_scopes mkdir run_request repr token reply reread pod ≡ ok p
      → IsWarm mode max_scopes p.pod
  unfolding poll_once
  poll_once-IsWarm none reply reread pod p warm h =
      subst (IsWarm mode max_scopes) (ap (λ (x : Polled). x.pod) (ok-injective h)) warm
  poll_once-IsWarm (some token) reply reread pod p warm h =
      on_reply-IsWarm (reply token) reread token pod p warm h

  -- However many polls a pod has served and whatever they brought, it has at most max_stateful_scopes
  -- scopes on record, a directory only for those, and none at all if it is stateless.
  pub serve-IsWarm :
      (polls : List (Option Text × (Text → Reply) × Option Text)) (pod : Pod) (p : Polled)
      → IsWarm mode max_scopes pod
      → serve mode max_scopes mkdir run_request repr polls pod ≡ ok p
      → IsWarm mode max_scopes p.pod
  unfolding serve
  serve-IsWarm [] pod p warm h =
      subst (IsWarm mode max_scopes) (ap (λ (x : Polled). x.pod) (ok-injective h)) warm
  serve-IsWarm ((token, reply, reread) ∷ polls) pod p warm h =
      let (first, one, more) =
        >>=-eq-ok (poll_once mode max_scopes mkdir run_request repr token reply reread pod) _ h in
      let (last, rest, e) =
        >>=-eq-ok (serve mode max_scopes mkdir run_request repr polls first.pod) _ more in
      subst (IsWarm mode max_scopes) (ap (λ (x : Polled). x.pod) (ok-injective e)) (
        serve-IsWarm polls first.pod last (poll_once-IsWarm token reply reread pod first warm one)
          rest)
