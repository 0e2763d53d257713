-- ===== src/Errors.antt =====
-- The exception classes that cross the control plane's layers
-- (include/gr4cp/app/session_service.hpp, include/gr4cp/app/block_settings_service.hpp,
-- include/gr4cp/runtime/block_settings.hpp, include/gr4cp/catalog/*.hpp), and code that may throw
-- as a function from a state to an outcome and the state that the throw or the return leaves.
use gr4_control_plane.Prelude.{String, Option, none, some, Bool, true, false, ◌≡◌, ◌⊎◌}
use gr4_control_plane.Prelude.{inl, inr, refl, ap}

pub data Exception : Type 0 where
  validation_error not_found_error invalid_state_error runtime_error timeout_error :
      String → Exception
  block_not_found_error reply_timeout_error : String → Exception
  scheduler_catalog_load_error catalog_load_error : String → Exception
  -- Any other class below `std::exception`.
  std_exception : String → Exception
  -- A thrown value that is no `std::exception`.
  unknown_exception : Exception

-- `error.what()`; `none` for what only `catch (...)` takes.
abbrev pub what : Exception → Option String
what (validation_error m) = some m
what (not_found_error m) = some m
what (invalid_state_error m) = some m
what (runtime_error m) = some m
what (timeout_error m) = some m
what (block_not_found_error m) = some m
what (reply_timeout_error m) = some m
what (scheduler_catalog_load_error m) = some m
what (catalog_load_error m) = some m
what (std_exception m) = some m
what unknown_exception = none

pub data Result (A : Type 0) : Type 0 where
  ok : A → Result A
  err : Exception → Result A

pub Result-cases :
    {A : Type 0} (r : Result A) → ((a : A) × (r ≡ ok a)) ⊎ ((e : Exception) × (r ≡ err e))
Result-cases (ok a) = inl (a, refl)
Result-cases (err e) = inr (e, refl)

-- The chain of results of functions that may throw and change nothing.
abbrev pub then_ok : {A B : Type 0} → Result A → (A → Result B) → Result B
then_ok (err e) f = err e
then_ok (ok a) f = f a

pub then_ok-ok :
    {A B : Type 0} (r : Result A) (f : A → Result B) (b : B)
    → then_ok r f ≡ ok b
    → (a : A) × (r ≡ ok a) × (f a ≡ ok b)
then_ok-ok (ok a) f b h = (a, refl, h)
then_ok-ok (err e) f b h = cc

-- A throw keeps the changes made before it.
abbrev pub M : Type 0 → Type 0 → Type 0
M S A = S → Result A × S

abbrev pub continue : {S A B : Type 0} → Result A × S → (A → M S B) → Result B × S
continue (ok a, s) f = f a s
continue (err e, s) f = (err e, s)

infixl 5 ◌>>=◌ ◌>>◌
abbrev pub ◌>>=◌ : {S A B : Type 0} → M S A → (A → M S B) → M S B
◌>>=◌ m f s = continue (m s) f

abbrev pub ◌>>◌ : {S B : Type 0} → M S (Unit {0}) → M S B → M S B
m >> k = m >>= λ _. k

abbrev pub pure : {S A : Type 0} → A → M S A
pure a s = (ok a, s)

abbrev pub throw : {S A : Type 0} → Exception → M S A
throw e s = (err e, s)

-- A result that changes nothing.
abbrev pub of_result : {S A : Type 0} → Result A → M S A
of_result r s = (r, s)

abbrev pub throw_if : {S : Type 0} → Bool → Exception → M S (Unit {0})
throw_if true e s = (err e, s)
throw_if false e s = (ok tt, s)

abbrev pub recover : {S A : Type 0} → Result A × S → (Exception → M S A) → Result A × S
recover (ok a, s) handler = (ok a, s)
recover (err e, s) handler = handler e s

-- `try { m } catch …`
abbrev pub try_catch : {S A : Type 0} → M S A → (Exception → M S A) → M S A
try_catch m handler s = recover (m s) handler

-- What stands behind a throw is not run.
pub continue_of_err :
    {S A B : Type 0} (c : Result A × S) (f : A → M S B) (e : Exception)
    → c.0 ≡ err e
    → continue c f ≡ (err e, c.1)
continue_of_err (ok a, s) f e h = cc
continue_of_err (err e', s) f e h = cc

pub continue_of_ok :
    {S A B : Type 0} (c : Result A × S) (f : A → M S B) (a : A)
    → c.0 ≡ ok a
    → continue c f ≡ f a c.1
continue_of_ok (ok a', s) f a h = ap (λ x. f x s) (ok-injective h)
  where
    ok-injective : ok a' ≡ ok a → a' ≡ a
    ok-injective e = cc
continue_of_ok (err e, s) f a h = cc

-- What holds of both outcomes of a step holds of a chain, or of a `try` block, that goes on from it.
pub continue_post :
    {S A B : Type 0} (R : Result A × S → Type 0) (Q : Result B × S → Type 0) (c : Result A × S)
    (f : A → M S B)
    → R c
    → ((a : A) (s : S) → R (ok a, s) → Q (f a s))
    → ((e : Exception) (s : S) → R (err e, s) → Q (err e, s))
    → Q (continue c f)
continue_post R Q (ok a, s) f h on_ok on_err = on_ok a s h
continue_post R Q (err e, s) f h on_ok on_err = on_err e s h

pub recover_post :
    {S A : Type 0} (R Q : Result A × S → Type 0) (c : Result A × S) (handler : Exception → M S A)
    → R c
    → ((a : A) (s : S) → R (ok a, s) → Q (ok a, s))
    → ((e : Exception) (s : S) → R (err e, s) → Q (handler e s))
    → Q (recover c handler)
recover_post R Q (ok a, s) handler h on_ok on_err = on_ok a s h
recover_post R Q (err e, s) handler h on_ok on_err = on_err e s h
