-- ===== src/Domain/Session.antt =====
-- include/gr4cp/domain/session.hpp and src/domain/session.cpp. A time point is a number of clock
-- ticks; `format_timestamp_utc` only renders one through the C library.
use gr4_control_plane.Prelude.{
  ℕ, String, ◌<>◌, ◌≡◌, refl, Bool, true, false, Option, ◌==◌, string_eq, if◌then◌else◌, arith,
}
use gr4_control_plane.Errors.{Result, ok, err, std_exception}

pub data SessionState : Type 0 where
  stopped running error : SessionState

abbrev pub is_running : SessionState → Bool
is_running running = true
is_running _ = false

abbrev pub is_stopped : SessionState → Bool
is_stopped stopped = true
is_stopped _ = false

pub record Session : Type 0 where
  pub id : String
  pub name : String
  pub grc_content : String
  pub scheduler_alias : Option String
  pub state : SessionState
  pub last_error : Option String
  pub created_at : ℕ
  pub updated_at : ℕ

unfoldable pub to_string : SessionState → String
to_string stopped = "stopped"
to_string running = "running"
to_string error = "error"

-- `std::invalid_argument` is a `std_exception`.
unfoldable pub session_state_from_string : String → Result SessionState
session_state_from_string state =
    if state == "stopped"
    then ok stopped
    else if state == "running"
    then ok running
    else if state == "error"
    then ok error
    else err (std_exception ("invalid session state: " <> state))

-- Reading back a written state gives that state.
session_state_from_string-to_string :
    (s : SessionState) → session_state_from_string (to_string s) ≡ ok s
unfolding session_state_from_string to_string string_eq
session_state_from_string-to_string stopped = refl
session_state_from_string-to_string running = refl
session_state_from_string-to_string error = refl

-- A text that is read as a state is what that state is written as.
to_string-session_state_from_string :
    (text : String) (s : SessionState) → session_state_from_string text ≡ ok s → to_string s ≡ text
unfolding session_state_from_string to_string
to_string-session_state_from_string text s h = ground arith
