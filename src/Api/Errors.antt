-- ===== src/Api/Errors.antt =====
-- The errors of src/api/http_server.cpp: the status, the code and the message that answer an exception.
use gr4_control_plane.Prelude.{ℕ, String, none, some, ◌≡◌, refl, ◌⊎◌, inl, inr}
use gr4_control_plane.Prelude.Dict.{Dict}
use gr4_control_plane.Errors.{
  Exception, validation_error, not_found_error, invalid_state_error, runtime_error, timeout_error,
  block_not_found_error, reply_timeout_error, scheduler_catalog_load_error, catalog_load_error,
  std_exception, unknown_exception, what, Result, ok, err,
}
use gr4_control_plane.Pmt.{Pmt, PmtWriter}
use gr4_control_plane.Runtime.Manager.{RuntimeManager, BlockSettingsMode}
use gr4_control_plane.App.BlockSettings.{World, update, get}
use gr4_control_plane.Json.{Json}
use gr4_control_plane.App.BlockSettings.Conversion.{Nesting}
use gr4_control_plane.App.BlockSettings.Answers.{IsApplicationError, Throws, update-Throws}

pub record ErrorDetails : Type 0 where
  pub status : ℕ
  pub code : String
  pub message : String

abbrev details : ℕ → String → String → ErrorDetails
details status code message = record { status = status; code = code; message = message }

-- The handlers of `current_error_details`, in their order.
unfoldable pub current_error_details : Exception → ErrorDetails
current_error_details (validation_error message) = details 400 "validation_error" message
current_error_details (not_found_error message) = details 404 "not_found" message
current_error_details (invalid_state_error message) = details 409 "invalid_state" message
current_error_details (runtime_error message) = details 500 "runtime_error" message
current_error_details (timeout_error message) = details 504 "timeout" message
current_error_details (scheduler_catalog_load_error message) =
    details 500 "scheduler_catalog_error" message
current_error_details (catalog_load_error message) = details 500 "catalog_error" message
current_error_details _ = details 500 "internal_error" "internal server error"

-- The answer has the exception's message, or the exception has none.
abbrev pub IsReported : Exception → Type 0
IsReported e = (what e ≡ none) ⊎ (what e ≡ some (current_error_details e).message)

IsApplicationError-IsReported : (e : Exception) → IsApplicationError e → IsReported e
unfolding IsApplicationError current_error_details
IsApplicationError-IsReported (validation_error _) h = inr refl
IsApplicationError-IsReported (not_found_error _) h = inr refl
IsApplicationError-IsReported (invalid_state_error _) h = inr refl
IsApplicationError-IsReported (runtime_error _) h = inr refl
IsApplicationError-IsReported (timeout_error _) h = inr refl
IsApplicationError-IsReported unknown_exception h = inl refl
IsApplicationError-IsReported (block_not_found_error _) h = absurd h
IsApplicationError-IsReported (reply_timeout_error _) h = absurd h
IsApplicationError-IsReported (scheduler_catalog_load_error _) h = absurd h
IsApplicationError-IsReported (catalog_load_error _) h = absurd h
IsApplicationError-IsReported (std_exception _) h = absurd h

Throws-IsReported :
    {S A : Type 0} (c : Result A × S) → Throws IsApplicationError c → Throws IsReported c
unfolding Throws
Throws-IsReported (ok a, s) h = tt
Throws-IsReported (err e, s) h = IsApplicationError-IsReported e h

module _ {p : Pmt} (rm : RuntimeManager (Dict String p.Value)) where
  -- Whatever `update` or `get` of the block settings service throws is answered with its own message, and
  -- not as an internal error, unless it is no `std::exception`.
  update-IsReported :
      (w : PmtWriter p) (nesting : Nesting p) (id block : String) (patch : Json p.Double)
      (mode : BlockSettingsMode) (st : World rm)
      → Throws IsReported (update rm w id block patch mode st)
        × Throws IsReported (get rm nesting id block st)
  update-IsReported w nesting id block patch mode st =
      let (of_update, of_get) = update-Throws rm w nesting id block patch mode st in
      (Throws-IsReported _ of_update, Throws-IsReported _ of_get)
