-- ===== src/Console/Dialogue.antt =====
-- What the login on a console sends, and when.
use mathlib.Core.Path.{subst}
use pytest_hardware_template.Prelude.{
  String, Bool, true, false, Option, none, some, List, [], ◌∷◌, ◌≡◌, ◌⊎◌, inl, inr, refl, sym, ap,
  ◌∙◌, ◌||◌, ◌&&◌, not, ◌==◌, if◌then◌else◌, concat, Result, ok, err, arith, eq_iff,
}
use pytest_hardware_template.Stand.Injected.{ConsoleSessionConfig}
use pytest_hardware_template.Console.{
  Poll, ConsoleError, Step, sent, saw, Session, Library, noted, read_any, send, Outcome,
  export_text, set_prompt, conclude, concluded, with_password, enter_password, with_state,
  with_username, log_in, logged_in, prepare, done_or_failed,
}
use pytest_hardware_template.Console.Reading.{
  Adds, read_console_state-Adds, IsOne, read_until_any-IsOne,
}

-- The last step read this state.
abbrev pub IsAfter : String → List Step → Type 0
IsAfter state steps = (before : List Step) × (steps ≡ saw state ∷ before)

module _ (library : Library) (config : ConsoleSessionConfig) where
  -- What may be sent after some steps: the carriage return that begins; the user's name after the
  -- login prompt, and the password after the password prompt, each with a return; and the command that
  -- sets the prompt, after the initial prompt.
  abbrev pub IsAllowed : String → List Step → Type 0
  IsAllowed text steps =
      ((text ≡ "\r") × (steps ≡ []))
      ⊎ ((username : String) × (config.username ≡ some username)
          × (text ≡ concat (username ∷ "\r" ∷ []))
          × IsAfter config.login_prompt steps)
      ⊎ ((password : String) × (config.password ≡ some password)
          × (text ≡ concat (password ∷ "\r" ∷ []))
          × IsAfter config.password_prompt steps)
      ⊎ ((text ≡ export_text library config) × IsAfter config.initial_prompt_suffix steps)

  -- Everything that was sent was allowed where it was sent.
  abbrev pub IsGuarded : List Step → Type 0
  IsGuarded [] = Unit
  IsGuarded (sent text ∷ steps) = IsAllowed text steps × IsGuarded steps
  IsGuarded (saw state ∷ steps) = IsGuarded steps

  -- Everything was allowed, and where the call returns, the prompt was read last.
  abbrev pub EndsWell : Outcome → Type 0
  EndsWell (s, err e) = IsGuarded s.steps
  EndsWell (s, ok u) = IsGuarded s.steps × IsAfter config.prompt s.steps

  prompt-EndsWell :
      (steps : List Step) (p : List Poll × Result ConsoleError String)
      → IsGuarded steps
      → IsOne config.prompt p
      → EndsWell (done_or_failed (noted steps p))
  prompt-EndsWell steps (polls, err e) g h = g
  prompt-EndsWell steps (polls, ok found) g h = (g, (steps, ap (λ z. saw z ∷ steps) h))

  set_prompt-EndsWell :
      (s : Session)
      → IsGuarded s.steps
      → IsAfter config.initial_prompt_suffix s.steps
      → EndsWell (set_prompt library config s)
  unfolding set_prompt read_any send
  set_prompt-EndsWell s g a =
      prompt-EndsWell (sent (export_text library config) ∷ s.steps) _ (inr (inr (inr (refl, a))), g)
        (read_until_any-IsOne library config config.prompt "shell prompt" false [] s.polls)

  same-IsAfter :
      (state other : String) (steps : List Step)
      → (state == other) ≡ true
      → IsAfter state steps
      → IsAfter other steps
  same-IsAfter state other steps h (before, e) =
      let same : state ≡ other = ground (arith, eq_iff state other) in
      (before, e ∙ ap (λ z. saw z ∷ before) same)

  test-EndsWell :
      (b : Bool) (x y : Outcome)
      → (b ≡ true → EndsWell x)
      → (b ≡ false → EndsWell y)
      → EndsWell (if b then x else y)
  test-EndsWell true x y h k = h refl
  test-EndsWell false x y h k = k refl

  conclude-EndsWell :
      (state : String) (s : Session)
      → IsGuarded s.steps
      → IsAfter state s.steps
      → EndsWell (conclude library config state s)
  unfolding conclude
  conclude-EndsWell state s g a =
      test-EndsWell (state == config.login_prompt || state == config.password_prompt) _ _ (λ _. g)
        (λ _.
          test-EndsWell
            (not (state == config.initial_prompt_suffix) && not (state == config.prompt)) _ _
            (λ _. g)
            (λ f.
              test-EndsWell (not (state == config.prompt)) _ _
                (λ t.
                  set_prompt-EndsWell s g
                    (same-IsAfter state config.initial_prompt_suffix s.steps (ground arith) a))
                (λ t. (g, same-IsAfter state config.prompt s.steps (ground arith) a))))

  concluded-EndsWell :
      (steps : List Step) (p : Session × Result ConsoleError String)
      → IsGuarded steps
      → Adds steps p
      → EndsWell (concluded library config p)
  concluded-EndsWell steps (s, err e) g h = subst IsGuarded (sym h) g
  concluded-EndsWell steps (s, ok state) g h =
      conclude-EndsWell state s (subst IsGuarded (sym h) g) (steps, h)

  with_password-EndsWell :
      (password : Option String) (s : Session)
      → config.password ≡ password
      → IsGuarded s.steps
      → IsAfter config.password_prompt s.steps
      → EndsWell (with_password library config password s)
  unfolding send
  with_password-EndsWell none s e g a = g
  with_password-EndsWell (some password) s e g a =
      concluded-EndsWell (sent (concat (password ∷ "\r" ∷ [])) ∷ s.steps) _
        (inr (inr (inl (password, e, refl, a))), g)
        (read_console_state-Adds library config true (send (concat (password ∷ "\r" ∷ [])) s))

  enter_password-EndsWell :
      (state : String) (s : Session)
      → IsGuarded s.steps
      → IsAfter state s.steps
      → EndsWell (enter_password library config state s)
  unfolding enter_password
  enter_password-EndsWell state s g a =
      test-EndsWell (state == config.password_prompt) _ _
        (λ t.
          with_password-EndsWell config.password s refl g
            (same-IsAfter state config.password_prompt s.steps t a))
        (λ f. conclude-EndsWell state s g a)

  with_state-EndsWell :
      (steps : List Step) (p : Session × Result ConsoleError String)
      → IsGuarded steps
      → Adds steps p
      → EndsWell (with_state library config p)
  with_state-EndsWell steps (s, err e) g h = subst IsGuarded (sym h) g
  with_state-EndsWell steps (s, ok state) g h =
      enter_password-EndsWell state s (subst IsGuarded (sym h) g) (steps, h)

  with_username-EndsWell :
      (username password : Option String) (s : Session)
      → config.username ≡ username
      → IsGuarded s.steps
      → IsAfter config.login_prompt s.steps
      → EndsWell (with_username library config username password s)
  unfolding send
  with_username-EndsWell (some username) (some password) s e g a =
      with_state-EndsWell (sent (concat (username ∷ "\r" ∷ [])) ∷ s.steps) _
        (inr (inl (username, e, refl, a)), g)
        (read_console_state-Adds library config false (send (concat (username ∷ "\r" ∷ [])) s))
  with_username-EndsWell (some username) none s e g a = g
  with_username-EndsWell none password s e g a = g

  log_in-EndsWell :
      (state : String) (s : Session)
      → IsGuarded s.steps
      → IsAfter state s.steps
      → EndsWell (log_in library config state s)
  unfolding log_in
  log_in-EndsWell state s g a =
      test-EndsWell (state == config.prompt) _ _
        (λ t. (g, same-IsAfter state config.prompt s.steps t a))
        (λ f.
          test-EndsWell (state == config.login_prompt) _ _
            (λ t.
              with_username-EndsWell config.username config.password s refl g
                (same-IsAfter state config.login_prompt s.steps t a))
            (λ f'. enter_password-EndsWell state s g a))

  logged_in-EndsWell :
      (steps : List Step) (p : Session × Result ConsoleError String)
      → IsGuarded steps
      → Adds steps p
      → EndsWell (logged_in library config p)
  logged_in-EndsWell steps (s, err e) g h = subst IsGuarded (sym h) g
  logged_in-EndsWell steps (s, ok state) g h =
      log_in-EndsWell state s (subst IsGuarded (sym h) g) (steps, h)

  -- Whatever a console answers, and however the preparation ends: the user's name is sent only right
  -- after the login prompt was read, the password only right after the password prompt, and the
  -- command that sets the prompt only right after the initial one; and where the preparation succeeds,
  -- the session's prompt was read last.
  pub prepare-EndsWell :
      (polls : List Poll) → EndsWell (prepare library config (record { polls = polls; steps = [] }))
  unfolding prepare send
  prepare-EndsWell polls =
      logged_in-EndsWell (sent "\r" ∷ []) _ (inl (refl, refl), tt)
        (read_console_state-Adds library config false
          (record { polls = polls; steps = sent "\r" ∷ [] }))
