-- ===== src/Safety/RateLimit.antt =====
-- The rate limit of src/ros_mcp/safety/policy_engine.py over a whole history of calls: the engine's
-- own list, which it prunes on each call, against the log of all the commands that it let pass.
use ros2_mcp_server.Base.{
  String, ◌≡◌, refl, sym, ap, ◌∙◌, Bool, true, false, ◌&&◌, List, [], ◌∷◌, ◌++◌, arith, ◌==◌,
  eq_iff, eq_refl, get, get-put, if◌then◌else◌, length, keep, or_else, is_none, Bool-cases, inl,
  inr,
}
use ros2_mcp_server.Number.{Number, nat}
use ros2_mcp_server.Safety.{SafetyEngine, recent, check_rate_limit}

module _ {R : Type 0} where
  keep-append : (p : R → Bool) (xs ys : List R) → keep p (xs ++ ys) ≡ keep p xs ++ keep p ys
  keep-append p [] ys = refl
  keep-append p (x ∷ xs) ys = ground (arith, keep-append p xs ys)

  -- A weaker test may be applied first.
  keep-keep :
      (p q : R → Bool)
      → ((x : R) → p x ≡ true → q x ≡ true)
      → (xs : List R) → keep p (keep q xs) ≡ keep p xs
  keep-keep p q h [] = refl
  keep-keep p q h (x ∷ xs) = ground (arith, keep-keep p q h xs, h x)

module _ {R : Type 0} ⦃n : Number R⦄ where
  open n use {le, minus}

  abbrev pub history_of : SafetyEngine R → String → List R
  history_of engine s = or_else (get s engine.rate_limit_history) []

  -- One call of `check` that reaches the rate limit, and the log of what passed for session `s`.
  abbrev pub log_call :
      String → R → (SafetyEngine R × List R) → String × R → SafetyEngine R × List R
  log_call s rate (engine, log) (session, now) =
      let (error, engine') = check_rate_limit engine now session rate in
      (engine', if session == s && is_none error then log ++ now ∷ [] else log)

  pub log_calls :
      String → R → (SafetyEngine R × List R) → List (String × R) → SafetyEngine R × List R
  log_calls s rate st [] = st
  log_calls s rate st (c ∷ cs) = log_calls s rate (log_call s rate st c) cs

  -- The clock has not gone back: what is recent at `now'` was recent at `now`.
  abbrev pub Later : R → R → Type 0
  Later now now' = (t : R) → le (minus now' (nat 1)) t ≡ true → le (minus now (nat 1)) t ≡ true

  abbrev pub Monotone : R → List (String × R) → Type 0
  Monotone last [] = Unit
  Monotone last ((session, now) ∷ cs) = Later last now × Monotone now cs

  -- Every entry of the log came when fewer than `rate` entries of the second before it stood there.
  pub data Limited (rate : R) : List R → Type 0 where
    nothing : Limited rate []
    passed :
        (log : List R) (now : R)
        → Limited rate log
        → le rate (nat (length (recent now log))) ≡ false
        → Limited rate (log ++ now ∷ [])

  -- What the engine remembers agrees with the log, as far back as any later call looks.
  abbrev Remembers : String → R → SafetyEngine R × List R → Type 0
  Remembers s last (engine, log) =
      (now : R) → Later last now → recent now (history_of engine s) ≡ recent now log

  history_other :
      (engine : SafetyEngine R) (now : R) (session s : String) (rate : R)
      → (session == s) ≡ false
      → history_of (check_rate_limit engine now session rate).1 s ≡ history_of engine s
  unfolding check_rate_limit
  history_other engine now session s rate e =
      let old = recent now (history_of engine session) in
      let d = engine.rate_limit_history in
      ground (arith, get-put session s old d, get-put session s (old ++ now ∷ []) d)

  abbrev window : SafetyEngine R → R → String → List R
  window engine now s = recent now (history_of engine s)

  abbrev is_full : SafetyEngine R → R → String → R → Bool
  is_full engine now s rate = le rate (nat (length (window engine now s)))

  history_full :
      (engine : SafetyEngine R) (now : R) (s : String) (rate : R)
      → is_full engine now s rate ≡ true
      → (history_of (check_rate_limit engine now s rate).1 s ≡ window engine now s)
        × (is_none (check_rate_limit engine now s rate).0 ≡ false)
  unfolding check_rate_limit
  history_full engine now s rate e =
      ground (arith, eq_refl s, get-put s s (window engine now s) engine.rate_limit_history)

  history_passed :
      (engine : SafetyEngine R) (now : R) (s : String) (rate : R)
      → is_full engine now s rate ≡ false
      → (history_of (check_rate_limit engine now s rate).1 s ≡ window engine now s ++ now ∷ [])
        × (is_none (check_rate_limit engine now s rate).0 ≡ true)
  unfolding check_rate_limit
  history_passed engine now s rate e =
      ground
        (arith, eq_refl s, get-put s s (window engine now s ++ now ∷ []) engine.rate_limit_history)

  Remembers-window :
      (s : String) (engine : SafetyEngine R) (log : List R) (last now now' : R)
      → Remembers s last (engine, log)
      → Later last now
      → Later now now'
      → recent now' (window engine now s) ≡ recent now' log
  Remembers-window s engine log last now now' m h k =
      keep-keep (le (minus now' (nat 1))) (le (minus now (nat 1))) k (history_of engine s)
      ∙ m now' (λ t e. h t (k t e))

  record Sound (s : String) (rate last : R) (st : SafetyEngine R × List R) : Type 0 where
    remembers : Remembers s last st
    limited : Limited rate st.1

  log_call-other :
      (s : String) (rate last now : R) (session : String) (engine : SafetyEngine R) (log : List R)
      → (session == s) ≡ false
      → Later last now
      → Sound s rate last (engine, log)
      → Sound s rate now (log_call s rate (engine, log) (session, now))
  log_call-other s rate last now session engine log e h v = record {
    remembers = λ now' k.
        rw (history_other engine now session s rate e, e) (v.remembers now' (λ t p. h t (k t p)));
    limited = rw e v.limited;
  }

  log_call-full :
      (s : String) (rate last now : R) (engine : SafetyEngine R) (log : List R)
      → is_full engine now s rate ≡ true
      → Later last now
      → Sound s rate last (engine, log)
      → Sound s rate now (log_call s rate (engine, log) (s, now))
  log_call-full s rate last now engine log e h v =
      let (kept, refused) = history_full engine now s rate e in
      record {
        remembers = λ now' k.
            rw (kept, refused, eq_refl s)
              (Remembers-window s engine log last now now' v.remembers h k);
        limited = rw (refused, eq_refl s) v.limited;
      }

  log_call-passed :
      (s : String) (rate last now : R) (engine : SafetyEngine R) (log : List R)
      → is_full engine now s rate ≡ false
      → Later last now
      → Sound s rate last (engine, log)
      → Sound s rate now (log_call s rate (engine, log) (s, now))
  log_call-passed s rate last now engine log e h v =
      let (kept, accepted) = history_passed engine now s rate e in
      record {
        remembers = λ now' k.
            let test = le (minus now' (nat 1)) in
            rw (kept, accepted, eq_refl s)
              (keep-append test (window engine now s) (now ∷ [])
                ∙ ap (λ xs. xs ++ keep test (now ∷ []))
                    (Remembers-window s engine log last now now' v.remembers h k)
                ∙ sym (keep-append test log (now ∷ [])));
        limited = rw (accepted, eq_refl s) (passed log now v.limited (rw (← v.remembers now h) e));
      }

  log_call-Sound :
      (s : String) (rate last now : R) (session : String) (engine : SafetyEngine R) (log : List R)
      → Later last now
      → Sound s rate last (engine, log)
      → Sound s rate now (log_call s rate (engine, log) (session, now))
  log_call-Sound s rate last now session engine log h v = elim (Bool-cases (session == s)) [
    | inl same ↦ rw ((eq_iff session s).0 same) (elim (Bool-cases (is_full engine now s rate)) [
      | inl full ↦ log_call-full s rate last now engine log full h v
      | inr room ↦ log_call-passed s rate last now engine log room h v
    ])
    | inr other ↦ log_call-other s rate last now session engine log other h v
  ]

  log_calls-Limited :
      (s : String) (rate last : R) (st : SafetyEngine R × List R) (cs : List (String × R))
      → Monotone last cs
      → Sound s rate last st
      → Limited rate (log_calls s rate st cs).1
  unfolding log_calls
  log_calls-Limited s rate last st [] m v = v.limited
  log_calls-Limited s rate last (engine, log) ((session, now) ∷ cs) (h, m) v =
      log_calls-Limited s rate now (log_call s rate (engine, log) (session, now)) cs m
        (log_call-Sound s rate last now session engine log h v)

  abbrev pub fresh : SafetyEngine R
  fresh = record { rate_limit_history = [] }

  fresh-Sound : (s : String) (rate last : R) → Sound s rate last (fresh, [])
  unfolding get
  fresh-Sound s rate last = record { remembers = λ now h. refl; limited = nothing }

  -- Whatever calls come in, of any sessions, on a clock that does not go back, the rate limit lets
  -- a command of a session pass only where fewer than `rate` commands of that session passed in the
  -- second before it: the engine forgets no command too early, and one session does not touch the
  -- history of another.
  pub rate_limit-Limited :
      (s : String) (rate start : R) (cs : List (String × R))
      → Monotone start cs
      → Limited rate (log_calls s rate (fresh, []) cs).1
  rate_limit-Limited s rate start cs m =
      log_calls-Limited s rate start (fresh, []) cs m (fresh-Sound s rate start)
