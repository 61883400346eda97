-- ===== src/Auth/Login/Examples.antt =====
-- The theorem on `Login` of internal/infrastructure/auth.go at concrete calls.
use Prim.Native.String.{String}
use text.Mathlib.Text.{◌==◌}
use hotel_reviews_microservi.Base.{◌≤◌, refl, false, Bool, none, some, List, [], ◌∷◌, arith, Time}
use hotel_reviews_microservi.Auth.Login.{Faults, Login, Tables}
use hotel_reviews_microservi.Auth.Login.Limit.{login_results, count_guesses, count_guesses-login}

abbrev no_faults : Faults
no_faults = record {
  get_attempts_fails = false;
  get_user_fails = false;
  increment_fails = false;
  lock_fails = false;
  reset_fails = false;
  last_login_fails = false;
  session_fails = false;
  attempt_fails = false;
  audit_fails = false;
}

abbrev guess : Time → String → Login
guess now password = record {
  now = now;
  email = "bob@example.com";
  password = password;
  ip_address = "10.0.0.1";
  new_access_token = some "access";
  new_refresh_token = some "refresh";
  faults = no_faults;
}

abbrev tables : Tables
tables = record {
  users =
      record {
        id = "bob";
        email = "bob@example.com";
        password_hash = "secret";
        failed_attempts = 0;
        locked_until = none;
        last_login_at = none;
      }
      ∷ [];
  attempts = [];
  sessions = [];
  audit_logs = [];
}

abbrev guesses : List Login
guesses =
    guess 1000 "a"
    ∷ guess 1001 "b"
    ∷ guess 1002 "c"
    ∷ guess 1003 "d"
    ∷ guess 1004 "e"
    ∷ guess 1005 "secret"
    ∷ []

abbrev same_text : String → String → Bool
same_text hash password = hash == password

count_guesses-login_example :
    count_guesses "bob@example.com" "10.0.0.1" (login_results same_text guesses tables) ≤ 5
count_guesses-login_example =
    count_guesses-login same_text "bob@example.com" "10.0.0.1" 1000 guesses tables refl (
      (refl, omega arith, omega arith),
      (
        (refl, omega arith, omega arith),
        (
          (refl, omega arith, omega arith),
          (
            (refl, omega arith, omega arith),
            ((refl, omega arith, omega arith), ((refl, omega arith, omega arith), tt)),
          ),
        ),
      ),
    )
