-- ===== src/App/SessionService/Fetch.antt =====
-- The retries of `SessionService::fetch_http_stream`.
use gr4_control_plane.Prelude.{
  ℕ, zero, suc, ◌+◌, ◌-◌, ◌<◌, String, ◌≡◌, ◌⊎◌, ◌∙◌, string_eq, nat_eq, Bool, true, false, none,
  some, arith,
}
use gr4_control_plane.Prelude.Dict
use gr4_control_plane.Errors.{Exception, runtime_error, what, ok, err}
use gr4_control_plane.Domain.Session.{Session, SessionState}
use gr4_control_plane.Storage
use gr4_control_plane.Runtime.Manager.{RuntimeManager, HttpStreamResponse}
use gr4_control_plane.App.SessionService.{Service, running, runtime_message}
use gr4_control_plane.App.SessionService.Operations.{
  World, fetch_attempts, fetch_http_stream, is_transient_http_stream_connect_error, retries,
  load_if_running,
}

module _ {PropertyMap : Type 0} (rm : RuntimeManager PropertyMap) (session : Session)
    (stream_id : String) where
  -- `k` calls of the runtime in a row that fail to connect.
  pub data Transients : ℕ → rm.State → rm.State → Type 0 where
    here : (r : rm.State) → Transients zero r r
    later :
        {k : ℕ} {r r' r'' : rm.State} (e : Exception) (message : String)
        → rm.fetch_http_stream session stream_id r ≡ (err e, r')
        → what e ≡ some message
        → is_transient_http_stream_connect_error message ≡ true
        → Transients k r' r''
        → Transients (suc k) r r''

  module _ (id : String) (service : Service) where
    abbrev at : rm.State → World rm
    at r = record { service = service; runtime = r }

    attempt_ok :
        (left : ℕ) {r r' : rm.State} {x : HttpStreamResponse}
        → rm.fetch_http_stream session stream_id r ≡ (ok x, r')
        → fetch_attempts rm (suc left) id session stream_id (at r) ≡ (ok x, at r')
    unfolding fetch_attempts
    attempt_ok left p = rw p

    attempt_again :
        (left : ℕ) {r r' : rm.State} (e : Exception)
        → rm.fetch_http_stream session stream_id r ≡ (err e, r')
        → retries rm left e ≡ true
        → fetch_attempts rm (suc left) id session stream_id (at r)
          ≡ fetch_attempts rm left id session stream_id (at r')
    unfolding fetch_attempts
    attempt_again left e p t = rw (p, t)

    attempt_throws :
        (left : ℕ) {r r' : rm.State} (e : Exception)
        → rm.fetch_http_stream session stream_id r ≡ (err e, r')
        → retries rm left e ≡ false
        → fetch_attempts rm (suc left) id session stream_id (at r)
          ≡ (err (runtime_error (runtime_message "stream fetch" id e)), at r')
    unfolding fetch_attempts
    attempt_throws left e p t = rw (p, t)

    -- Such failures only use up attempts.
    after_Transients :
        {k : ℕ} {r r' : rm.State} (left n : ℕ)
        → left ≡ k + suc n
        → Transients k r r'
        → fetch_attempts rm left id session stream_id (at r)
          ≡ fetch_attempts rm (suc n) id session stream_id (at r')
    after_Transients left n e (here r) = let q : left ≡ suc n = omega arith in rw q
    after_Transients zero n e (later x m p q t rest) = absurd (omega arith)
    after_Transients (suc left) n e (later x m p q t rest) =
        attempt_again left x p (ground arith) ∙ after_Transients left n (omega arith) rest

-- The message of a failure to connect.
abbrev pub is_connect_failure : Exception → Bool
is_connect_failure e = elim (what e) [
  | none ↦ false
  | some message ↦ is_transient_http_stream_connect_error message
]

module _ {PropertyMap : Type 0} (rm : RuntimeManager PropertyMap) (id stream_id : String)
    (w : World rm) (s : Session) (found : Storage.get id w.service.repository ≡ some s)
    (keyed : s.id ≡ id) (k : ℕ) (r r' : rm.State) (early : k < 20)
    (waits : Transients rm s stream_id k w.runtime r) where
  module _ (runs : s.state ≡ SessionState.running)
      (active : Dict.lookup id w.service.phases ≡ some running) where
    loads : load_if_running rm id w.service ≡ (ok (some s), w.service)
    unfolding load_if_running
    loads = ground arith

    fetch-attempts : fetch_http_stream rm id stream_id w ≡ fetch_attempts rm 20 id s stream_id w
    unfolding fetch_http_stream
    fetch-attempts = rw (loads, fetch_http_stream)

    -- On a running session that is in phase `running`, up to 19 failures to connect are waited
    -- out, and the first answer is returned.
    pub fetch_http_stream-answer :
        (x : HttpStreamResponse)
        → rm.fetch_http_stream s stream_id r ≡ (ok x, r')
        → fetch_http_stream rm id stream_id w ≡ (ok x, record w { runtime = r' })
    fetch_http_stream-answer x p =
        fetch-attempts
        ∙ after_Transients rm s stream_id id w.service 20 (19 - k) (omega arith) waits
        ∙ attempt_ok rm s stream_id id w.service (19 - k) p

    -- On a running session that is in phase `running`, after fewer than 20 failures to connect,
    -- the twentieth failure, or an earlier one that is no failure to connect, is thrown as a
    -- `RuntimeError`.
    fetch_http_stream-failure :
        (e : Exception)
        → rm.fetch_http_stream s stream_id r ≡ (err e, r')
        → (k ≡ 19) ⊎ (is_connect_failure e ≡ false)
        → fetch_http_stream rm id stream_id w
          ≡ (err (runtime_error (runtime_message "stream fetch" id e)), record w { runtime = r' })
    fetch_http_stream-failure e p h =
        fetch-attempts
        ∙ after_Transients rm s stream_id id w.service 20 (19 - k) (omega arith) waits
        ∙ attempt_throws rm s stream_id id w.service (19 - k) e p (ground arith)
