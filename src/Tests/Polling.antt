-- ===== src/Tests/Polling.antt =====
-- Tests of crates/gola-core/src/polling_authorization_handler.rs.
use gola.Prelude.{ℕ, ◌≡◌, refl, some, [], lookup, put, same, Text, text_key, codes, inl, inr}
use gola.Core.Errors.{authorization_failed, ok, err}
use gola.Agent.{AuthorizationRequest, yes, no, all}
use gola.Agent.Polling.{
  always_allow, always_deny, approve_and_allow, default, new, set_config, register,
  cancel_authorization, request_authorization, resume, approve, refuse, new_pending,
  PollingAuthorizationHandler,
}
use gola.Agent.Polling.Answers.{Gives, resume-handle_response, resume-register}

abbrev request : AuthorizationRequest ℕ
request = record {
  context = record {
    tool_name = codes "search";
    tool_description = codes "Searches";
    tool_arguments = 7;
    tool_call_id = some (codes "call");
  };
  step_number = 1;
  max_steps = 3;
}

abbrev call : Text
call = codes "call"

-- A handler with two requests in its table.
abbrev waiting_two : PollingAuthorizationHandler ℕ
waiting_two = register (register new 5 call request) 6 (codes "other") request

resume-handle_response_example :
    Gives waiting_two call (new_pending new 5 request) approve yes
    × Gives waiting_two call (new_pending new 5 request) refuse no
    × Gives waiting_two call (new_pending new 5 request) approve_and_allow all
unfolding put same
resume-handle_response_example =
    resume-handle_response waiting_two call (new_pending new 5 request) found
  where
    found : lookup call waiting_two.pending_requests ≡ some (new_pending new 5 request)
    found = unfold lookup in refl

resume-register_example :
    ((resume (register (register new 5 call request) 6 call request) call 0).0
      ≡ err (authorization_failed (codes "Authorization response channel was closed")))
    × ((resume (resume (register (register new 5 call request) 6 call request) call 0).1 call 1).0
        ≡ err (authorization_failed (codes "Authorization response channel was closed")))
resume-register_example = resume-register new 5 6 call request request

-- The tests of the source: the two modes that do not ask, and a request that is cancelled.
allowed :
    (request_authorization (set_config new (record default { mode = always_allow })) 5 [] request).0
    ≡ inl yes
unfolding request_authorization
allowed = refl

denied :
    (request_authorization (set_config new (record default { mode = always_deny })) 5 [] request).0
    ≡ inl no
unfolding request_authorization
denied = refl

waits : (request_authorization new 5 [] request).0 ≡ inr (call, 0)
unfolding request_authorization
waits = refl

cancelled : (resume (cancel_authorization (register new 5 call request) call).1 call 0).0 ≡ ok no
unfolding cancel_authorization resume lookup put same
cancelled = refl
