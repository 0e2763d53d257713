-- ===== src/App/BlockSettings/Answers.antt =====
-- What the methods of the block settings service throw, and when they leave everything as it was.
use gr4_control_plane.Prelude.{
  String, ◌<>◌, Bool, true, false, ◌&&◌, Option, none, some, ◌≡◌, refl, sym, subst, string_eq,
  Option-cases, Bool-cases, inl, inr, if◌then◌else◌,
}
use gr4_control_plane.Prelude.Dict.{Dict}
use gr4_control_plane.Errors.{
  Exception, validation_error, not_found_error, invalid_state_error, runtime_error, timeout_error,
  block_not_found_error, reply_timeout_error, scheduler_catalog_load_error, catalog_load_error,
  std_exception, unknown_exception, Result, ok, err, M, recover, continue,
}
use gr4_control_plane.Pmt.{Pmt, PmtWriter}
use gr4_control_plane.Domain.Session.{Session, is_running}
use gr4_control_plane.Storage
use gr4_control_plane.Runtime.Manager.{RuntimeManager, BlockSettingsMode}
use gr4_control_plane.App.BlockSettings.{
  World, as_application_error, load_running_session_or_throw, update, get,
}
use gr4_control_plane.Json.{Json}
use gr4_control_plane.App.BlockSettings.Conversion.{json_to_property_map, Nesting}
use gr4_control_plane.App.BlockSettings.Acceptance.{
  Accepts, is_supported_body, json_to_property_map-Accepts,
}

-- The classes that the HTTP server tells apart, and what is no `std::exception`.
unfoldable pub IsApplicationError : Exception → Type 0
IsApplicationError (validation_error _) = Unit {0}
IsApplicationError (not_found_error _) = Unit {0}
IsApplicationError (invalid_state_error _) = Unit {0}
IsApplicationError (runtime_error _) = Unit {0}
IsApplicationError (timeout_error _) = Unit {0}
IsApplicationError unknown_exception = Unit {0}
IsApplicationError _ = ⊥

as_application_error-IsApplicationError :
    (e : Exception) → IsApplicationError (as_application_error e)
unfolding as_application_error IsApplicationError
as_application_error-IsApplicationError (validation_error _) = tt
as_application_error-IsApplicationError (not_found_error _) = tt
as_application_error-IsApplicationError (invalid_state_error _) = tt
as_application_error-IsApplicationError (runtime_error _) = tt
as_application_error-IsApplicationError (timeout_error _) = tt
as_application_error-IsApplicationError (block_not_found_error _) = tt
as_application_error-IsApplicationError (reply_timeout_error _) = tt
as_application_error-IsApplicationError (scheduler_catalog_load_error _) = tt
as_application_error-IsApplicationError (catalog_load_error _) = tt
as_application_error-IsApplicationError (std_exception _) = tt
as_application_error-IsApplicationError unknown_exception = tt

-- What is thrown, if something is, satisfies `P`.
unfoldable pub Throws : {S A : Type 0} → (Exception → Type 0) → Result A × S → Type 0
Throws P (ok a, s) = Unit {0}
Throws P (err e, s) = P e

Accepts-Throws :
    {S A : Type 0} (b : Bool) (r : Result A) (s : S)
    → Accepts b r
    → Throws IsApplicationError (r, s)
unfolding IsApplicationError Throws
Accepts-Throws true r s (a, e) = subst (λ x. Throws IsApplicationError (x, s)) (sym e) tt
Accepts-Throws false r s (message, e) = subst (λ x. Throws IsApplicationError (x, s)) (sym e) tt

returned : {S A : Type 0} (P : Exception → Type 0) (a : A) (s : S) → Throws P (ok a, s)
unfolding Throws
returned P a s = tt

continue-Throws :
    {S A B : Type 0} (P : Exception → Type 0) (c : Result A × S) (f : A → M S B)
    → Throws P c
    → ((a : A) (s : S) → Throws P (f a s))
    → Throws P (continue c f)
unfolding Throws
continue-Throws P (ok a, s) f h k = k a s
continue-Throws P (err e, s) f h k = h

recover-Throws :
    {S A : Type 0} (P : Exception → Type 0) (c : Result A × S) (handler : Exception → Exception)
    → ((e : Exception) → P (handler e))
    → Throws P (recover c λ e s. (err (handler e), s))
unfolding Throws
recover-Throws P (ok a, s) handler h = tt
recover-Throws P (err e, s) handler h = h e

load-missing :
    (id : String) (repository : Storage.Repository)
    → Storage.get id repository ≡ none
    → load_running_session_or_throw id repository
      ≡ err (not_found_error ("session not found: " <> id))
unfolding load_running_session_or_throw
load-missing id repository e = rw (load_running_session_or_throw, e) refl

load-found :
    (id : String) (repository : Storage.Repository) (session : Session)
    → Storage.get id repository ≡ some session
    → load_running_session_or_throw id repository ≡ (
        if is_running session.state
        then ok session
        else err (invalid_state_error ("session not running: " <> id)))
unfolding load_running_session_or_throw
load-found id repository session e = rw (load_running_session_or_throw, e) refl

refusal-Throws :
    {S A : Type 0} (b : Bool) (a : A) (message : String) (s : S)
    → Throws IsApplicationError ((if b then ok a else err (invalid_state_error message)), s)
unfolding IsApplicationError Throws
refusal-Throws true a message s = tt
refusal-Throws false a message s = tt

load-Throws :
    {S : Type 0} (id : String) (repository : Storage.Repository) (s : S)
    → Throws IsApplicationError (load_running_session_or_throw id repository, s)
unfolding IsApplicationError Throws
load-Throws id repository s = elim (Option-cases (Storage.get id repository)) [
  | inl e ↦ subst (λ r. Throws IsApplicationError (r, s)) (sym (load-missing id repository e)) tt
  | inr (session, e) ↦
      subst (λ r. Throws IsApplicationError (r, s)) (sym (load-found id repository session e))
        (refusal-Throws (is_running session.state) session _ s)
]

abbrev pub is_served : {D : Type 0} → Option Session → Json D → Bool
is_served none patch = false
is_served (some session) patch = is_running session.state && is_supported_body patch

unsupported :
    {D : Type 0} (session : Session) (found : Option Session) (patch : Json D)
    → is_served found patch ≡ false
    → found ≡ some session
    → is_running session.state ≡ true
    → is_supported_body patch ≡ false
unsupported session found patch h e r =
    subst (λ b. b && is_supported_body patch ≡ false) r (subst (λ o. is_served o patch ≡ false) e h)

abbrev pub refusal : String → String → Option Session → Exception
refusal id message none = not_found_error ("session not found: " <> id)
refusal id message (some session) =
    if is_running session.state
    then validation_error message
    else invalid_state_error ("session not running: " <> id)

module _ {p : Pmt} (rm : RuntimeManager (Dict String p.Value)) where
  -- What `update` and `get` throw is one of the errors that the HTTP server tells apart, or is no
  -- `std::exception`.
  pub update-Throws :
      (w : PmtWriter p) (nesting : Nesting p) (id block : String) (patch : Json p.Double)
      (mode : BlockSettingsMode) (st : World rm)
      → Throws IsApplicationError (update rm w id block patch mode st)
        × Throws IsApplicationError (get rm nesting id block st)
  unfolding update get
  update-Throws w nesting id block patch mode st = (
    continue-Throws IsApplicationError _ _ (load-Throws id st.repository st) λ session s.
        continue-Throws IsApplicationError _ _
          (Accepts-Throws (is_supported_body patch) _ s (json_to_property_map-Accepts w patch))
          λ property_map s'.
            continue-Throws IsApplicationError _ _
              (recover-Throws IsApplicationError _ as_application_error
                as_application_error-IsApplicationError)
              λ _ s''. returned IsApplicationError _ s'',
    continue-Throws IsApplicationError _ _ (load-Throws id st.repository st) λ session s.
        recover-Throws IsApplicationError _ as_application_error
          as_application_error-IsApplicationError,
  )

  not_accepted :
      (w : PmtWriter p) (patch : Json p.Double)
      → is_supported_body patch ≡ false
      → (message : String) × (json_to_property_map w patch ≡ err (validation_error message))
  not_accepted w patch h =
      subst (λ b. Accepts b (json_to_property_map w patch)) h (json_to_property_map-Accepts w patch)

  -- An update of a session that is missing or does not run, or with a body that is no object or holds
  -- an array, reaches nothing of the runtime: it throws a `NotFoundError`, an `InvalidStateError` or a
  -- `ValidationError`, the first that applies in this order, and leaves everything as it was.
  pub update-refused :
      (w : PmtWriter p) (id block : String) (patch : Json p.Double) (mode : BlockSettingsMode)
      (st : World rm)
      → is_served (Storage.get id st.repository) patch ≡ false
      → (message : String) × (update rm w id block patch mode st
          ≡ (err (refusal id message (Storage.get id st.repository)), st))
  unfolding update
  update-refused w id block patch mode st h = elim (Option-cases (Storage.get id st.repository)) [
    | inl e ↦ ("", rw (load-missing id st.repository e, e) refl)
    | inr (session, e) ↦ elim (Bool-cases (is_running session.state)) [
      | inl r ↦
          let (message, refused) =
            not_accepted w patch (unsupported session (Storage.get id st.repository) patch h e r) in
          (message, rw (load-found id st.repository session e, e, r, refused) refl)
      | inr r ↦ ("", rw (load-found id st.repository session e, e, r) refl)
    ]
  ]
