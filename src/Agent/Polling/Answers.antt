-- ===== src/Agent/Polling/Answers.antt =====
-- What the tasks that wait in crates/gola-core/src/polling_authorization_handler.rs are answered.
use gola.Prelude.{
  ℕ, suc, ◌≡◌, refl, ap, ◌∙◌, none, some, List, Text, codes, lookup, put, remove, number_key,
  text_key, lookup-put, lookup-remove, arith,
}
use gola.Core.Errors.{authorization_failed, Result, ok, err}
use gola.Agent.{AuthorizationRequest, AuthorizationResponse, yes, no, all}
use gola.Agent.Polling.{
  Channel, UiAuthorizationResponse, approve, refuse, approve_and_allow, PendingAuthorizationRequest,
  PollingAuthorizationHandler, ui_response, register, answered, handle_response, resume, resume_by,
  closed, cleanup_pending_request,
}

lookup-put_same :
    {W : Type 0} (k : Text) (v : W) (m : List (Text × W)) → lookup k (put k v m) ≡ some v
lookup-put_same k v m = ground (arith, lookup-put k k v m, text_key.matches_iff k k)

channel-put_same : {W : Type 0} (k : ℕ) (v : W) (m : List (ℕ × W)) → lookup k (put k v m) ≡ some v
channel-put_same k v m = ground (arith, lookup-put k k v m, number_key.matches_iff k k)

gone : {W : Type 0} (k : Text) (m : List (Text × W)) → lookup k (remove k m) ≡ none
gone k m = ground (arith, lookup-remove k k m, text_key.matches_iff k k)

other_channel :
    (k : ℕ) (v w : Channel) (m : List (ℕ × Channel)) → lookup k (put (suc k) v (put k w m)) ≡ some w
other_channel k v w m = ground (
  arith,
  lookup-put (suc k) k v (put k w m),
  channel-put_same k w m,
  number_key.matches_iff (suc k) k,
)

abbrev closed_channel : Result AuthorizationResponse
closed_channel = err (authorization_failed (codes "Authorization response channel was closed"))

module _ {V : Type 0} where
  -- What a response does to a request that is in the table: the task that waits for it gives `answer`,
  -- and the request leaves the table.
  abbrev pub Gives :
      PollingAuthorizationHandler V
      → Text
      → PendingAuthorizationRequest V
      → UiAuthorizationResponse
      → AuthorizationResponse
      → Type 0
  Gives h id p response answer =
      let after = handle_response h id response in
      (after.0 ≡ ok tt)
      × ((resume after.1 id p.response_sender).0 ≡ ok answer)
      × (lookup id after.1.pending_requests ≡ none)

  handle_response-Gives :
      (h : PollingAuthorizationHandler V) (id : Text) (p : PendingAuthorizationRequest V)
      (response : UiAuthorizationResponse)
      → lookup id h.pending_requests ≡ some p
      → Gives h id p response (ui_response response)
  unfolding handle_response resume
  handle_response-Gives h id p response e =
      let after = (answered h id (ui_response response) (some p)).1 in
      rw e (
        refl,
        ap (λ c. (resume_by after id c).0) (channel-put_same p.response_sender _ _),
        gone id h.pending_requests,
      )

  -- Of any request in the table, the response of the user decides what the task that waits for it
  -- gives: yes for Approve, no for Deny and all for ApproveAndAllow; and the request leaves the table.
  pub resume-handle_response :
      (h : PollingAuthorizationHandler V) (id : Text) (p : PendingAuthorizationRequest V)
      → lookup id h.pending_requests ≡ some p
      → Gives h id p approve yes × Gives h id p refuse no × Gives h id p approve_and_allow all
  resume-handle_response h id p e = (
    handle_response-Gives h id p approve e,
    handle_response-Gives h id p refuse e,
    handle_response-Gives h id p approve_and_allow e,
  )

  module _ (h : PollingAuthorizationHandler V) (now later : ℕ) (id : Text)
      (request next : AuthorizationRequest V) where
    abbrev both : PollingAuthorizationHandler V
    both = register (register h now id request) later id next

    first_closed : lookup h.next_channel both.channels ≡ some closed
    first_closed = rw (lookup-put_same id _ h.pending_requests) (other_channel h.next_channel _ _ _)

    second_closed :
        lookup (suc h.next_channel) (cleanup_pending_request both id).channels ≡ some closed
    second_closed =
        rw (lookup-put_same id _ (put id _ h.pending_requests))
          (channel-put_same (suc h.next_channel) _ _)

  -- Two requests of one id in the table: the later one drops the sender of the earlier one, whose task ends
  -- in an error, and takes the later one with it, since it clears the table's entry of its id.
  pub resume-register :
      (h : PollingAuthorizationHandler V) (now later : ℕ) (id : Text)
      (request next : AuthorizationRequest V)
      → let both = register (register h now id request) later id next in
        let first = resume both id h.next_channel in
        (first.0 ≡ closed_channel) × ((resume first.1 id (suc h.next_channel)).0 ≡ closed_channel)
  unfolding resume
  resume-register h now later id request next =
      let two = both h now later id request next in
      let ended = ap (resume_by two id) (first_closed h now later id request next) in
      (
        ap (λ r. r.0) ended,
        ap (λ r. (resume r.1 id (suc h.next_channel)).0) ended
            ∙ ap (λ c. (resume_by (cleanup_pending_request two id) id c).0)
                (second_closed h now later id request next),
      )
