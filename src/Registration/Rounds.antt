-- ===== src/Registration/Rounds.antt =====
-- src/registration.rs: the runs of the client. Which heartbeats carry the secret, how long the
-- client pauses, and when it deregisters.
use h2hc_linker.Base.{
  ℕ, suc, ◌<◌, ◌≡◌, refl, String, ◌&&◌, Bool, true, false, not, List, [], ◌∷◌, Option, none, some,
  is_some, arith, inl, inr, ltb, leb,
}
use h2hc_linker.Host.{Fallible, ok, err, Fallible-cases}
use h2hc_linker.Registration.{
  RegistrationClient, HttpResponse, HeartbeatResponse, heartbeat_body, send_heartbeat, result_of,
  is_ok, next_interval, Act, posts, sleeps, deletes, handle_shutdown, Round, completed,
  stopped_early, stopped_late, run_with, run,
}

-- Whether the service has taken a heartbeat: it was reached, the status is one of success, and the
-- body says so.
abbrev pub accepted : Fallible HttpResponse → Bool
accepted (err e) = false
accepted (ok resp) = elim resp.json [
  | err e ↦ false
  | ok body ↦ leb 200 resp.status && ltb resp.status 300 && body.registered
]

-- For each heartbeat that is sent, whether the last one before it was accepted.
abbrev pub renewals : Bool → List Round → List Bool
renewals last [] = []
renewals last (completed at answer ∷ rounds) = last ∷ renewals (accepted answer) rounds
renewals last (stopped_early none end ∷ rounds) = []
renewals last (stopped_early (some at) end ∷ rounds) = last ∷ []
renewals last (stopped_late at answer end ∷ rounds) = last ∷ []

-- Whether the last heartbeat that was answered before the shutdown was accepted; `none` for a run
-- that is not stopped.
abbrev pub registered_at_stop : Bool → List Round → Option Bool
registered_at_stop last [] = none
registered_at_stop last (completed at answer ∷ rounds) = registered_at_stop (accepted answer) rounds
registered_at_stop last (stopped_early at end ∷ rounds) = some last
registered_at_stop last (stopped_late at answer end ∷ rounds) = some (accepted answer)

-- Of the heartbeats that are sent, whether they are without the secret.
abbrev pub without_secret : List Act → List Bool
without_secret [] = []
without_secret (posts url body ∷ acts) = not (is_some body.admin_secret) ∷ without_secret acts
without_secret (sleeps n ∷ acts) = without_secret acts
without_secret (deletes url body ∷ acts) = without_secret acts

abbrev pub deregistrations : List Act → ℕ
deregistrations [] = 0
deregistrations (posts url body ∷ acts) = deregistrations acts
deregistrations (sleeps n ∷ acts) = deregistrations acts
deregistrations (deletes url body ∷ acts) = suc (deregistrations acts)

result_of-accepted : (answer : Fallible HttpResponse) → is_ok (result_of answer) ≡ accepted answer
result_of-accepted (err e) = refl
result_of-accepted (ok resp) = ground arith

run_with-without_secret :
    (rounds : List Round) (n : ℕ) (c : RegistrationClient)
    → without_secret (run_with rounds n c) ≡ renewals c.is_registered rounds
unfolding heartbeat_body send_heartbeat handle_shutdown
run_with-without_secret [] n c = refl
run_with-without_secret (completed at answer ∷ rounds) n c =
    let c' = (send_heartbeat answer c).1 in
    let rest = run_with-without_secret rounds (next_interval n (result_of answer)) c' in
    ground (arith, rest, result_of-accepted answer)
run_with-without_secret (stopped_early none end ∷ rounds) n c = ground arith
run_with-without_secret (stopped_early (some at) end ∷ rounds) n c = ground arith
run_with-without_secret (stopped_late at answer end ∷ rounds) n c =
    ground (arith, result_of-accepted answer)

-- A heartbeat carries the admin secret exactly if it is the first of the run or the last one before
-- it was not accepted, so that a service which has lost the entry gets the secret again.
pub run-without_secret :
    (rounds : List Round) (c : RegistrationClient)
    → c.is_registered ≡ false
    → without_secret (run rounds c) ≡ renewals false rounds
unfolding run
run-without_secret rounds c h =
    rw⁻¹ h (run_with-without_secret rounds c.config.initial_heartbeat_interval_secs c)

abbrev pub owed : Option Bool → ℕ
owed (some true) = 1
owed _ = 0

run_with-deregistrations :
    (rounds : List Round) (n : ℕ) (c : RegistrationClient)
    → deregistrations (run_with rounds n c) ≡ owed (registered_at_stop c.is_registered rounds)
unfolding heartbeat_body send_heartbeat handle_shutdown
run_with-deregistrations [] n c = refl
run_with-deregistrations (completed at answer ∷ rounds) n c =
    let c' = (send_heartbeat answer c).1 in
    let rest = run_with-deregistrations rounds (next_interval n (result_of answer)) c' in
    ground (arith, rest, result_of-accepted answer)
run_with-deregistrations (stopped_early none end ∷ rounds) n c = ground arith
run_with-deregistrations (stopped_early (some at) end ∷ rounds) n c = ground arith
run_with-deregistrations (stopped_late at answer end ∷ rounds) n c =
    ground (arith, result_of-accepted answer)

-- A run deregisters once when it is stopped and the last heartbeat that was answered was accepted,
-- and never otherwise: after an earlier success, too, a rejected heartbeat leaves the entry in
-- place.
pub run-deregistrations :
    (rounds : List Round) (c : RegistrationClient)
    → c.is_registered ≡ false
    → deregistrations (run rounds c) ≡ owed (registered_at_stop false rounds)
unfolding run
run-deregistrations rounds c h =
    rw⁻¹ h (run_with-deregistrations rounds c.config.initial_heartbeat_interval_secs c)

-- Every pause passes the test.
abbrev pub Pauses : (ℕ → Type 0) → List Act → Type 0
Pauses P [] = Unit
Pauses P (posts url body ∷ acts) = Pauses P acts
Pauses P (sleeps n ∷ acts) = P n × Pauses P acts
Pauses P (deletes url body ∷ acts) = Pauses P acts

next_interval-pos :
    (n : ℕ) (result : Fallible HeartbeatResponse) → 0 < n → 0 < next_interval n result
next_interval-pos n (ok resp) h = ground arith
next_interval-pos n (err e) h = ground arith

handle_shutdown-Pauses :
    (P : ℕ → Type 0) (end : String) (c : RegistrationClient) → Pauses P (handle_shutdown end c)
unfolding handle_shutdown
handle_shutdown-Pauses P end c = ground arith

run_with-Pauses :
    (rounds : List Round) (n : ℕ) (c : RegistrationClient)
    → 0 < n
    → Pauses (λ m. 0 < m) (run_with rounds n c)
unfolding send_heartbeat
run_with-Pauses [] n c h = tt
run_with-Pauses (completed at answer ∷ rounds) n c h =
    let more = next_interval-pos n (result_of answer) h in
    (
      more,
      run_with-Pauses rounds (next_interval n (result_of answer)) (send_heartbeat answer c).1 more,
    )
run_with-Pauses (stopped_early none end ∷ rounds) n c h = handle_shutdown-Pauses (λ m. 0 < m) end c
run_with-Pauses (stopped_early (some at) end ∷ rounds) n c h =
    handle_shutdown-Pauses (λ m. 0 < m) end c
run_with-Pauses (stopped_late at answer end ∷ rounds) n c h = (
  next_interval-pos n (result_of answer) h,
  handle_shutdown-Pauses (λ m. 0 < m) end (send_heartbeat answer c).1,
)

-- The client never spins: from an initial interval that is not zero, every pause is positive, also
-- if the service answers with an interval of zero.
pub run-Pauses :
    (rounds : List Round) (c : RegistrationClient)
    → 0 < c.config.initial_heartbeat_interval_secs
    → Pauses (λ m. 0 < m) (run rounds c)
unfolding run
run-Pauses rounds c h = run_with-Pauses rounds c.config.initial_heartbeat_interval_secs c h

-- The body of an answer sets no interval.
abbrev pub is_undirected : Fallible HttpResponse → Bool
is_undirected (err e) = true
is_undirected (ok resp) = elim resp.json [
  | err e ↦ true
  | ok body ↦ elim body.heartbeat_interval_seconds [ none ↦ true | some n ↦ not (ltb 0 n) ]
]

abbrev pub Undirected : List Round → Type 0
Undirected [] = Unit
Undirected (completed at answer ∷ rounds) = (is_undirected answer ≡ true) × Undirected rounds
Undirected (stopped_early at end ∷ rounds) = Unit
Undirected (stopped_late at answer end ∷ rounds) = is_undirected answer ≡ true

next_interval_undirected :
    (answer : Fallible HttpResponse)
    → is_undirected answer ≡ true
    → next_interval 30 (result_of answer) ≡ 30
next_interval_undirected (err e) h = refl
next_interval_undirected (ok resp) h = ground (arith, h)

run_with-Undirected :
    (rounds : List Round) (c : RegistrationClient)
    → Undirected rounds
    → Pauses (λ m. m ≡ 30) (run_with rounds 30 c)
unfolding send_heartbeat
run_with-Undirected [] c u = tt
run_with-Undirected (completed at answer ∷ rounds) c u =
    let same = next_interval_undirected answer u.0 in
    rw same (refl, run_with-Undirected rounds (send_heartbeat answer c).1 u.1)
run_with-Undirected (stopped_early none end ∷ rounds) c u =
    handle_shutdown-Pauses (λ m. m ≡ 30) end c
run_with-Undirected (stopped_early (some at) end ∷ rounds) c u =
    handle_shutdown-Pauses (λ m. m ≡ 30) end c
run_with-Undirected (stopped_late at answer end ∷ rounds) c u = (
  next_interval_undirected answer u,
  handle_shutdown-Pauses (λ m. m ≡ 30) end (send_heartbeat answer c).1,
)

-- After a heartbeat that is not accepted the pauses are of 30 seconds until the service sets an
-- interval: heartbeats that are accepted again do not bring the configured interval back.
pub rejected_interval_kept :
    (at : String) (answer : Fallible HttpResponse) (rounds : List Round) (c : RegistrationClient)
    → accepted answer ≡ false
    → Undirected rounds
    → Pauses (λ m. m ≡ 30) (run (completed at answer ∷ rounds) c)
unfolding run send_heartbeat
rejected_interval_kept at answer rounds c h u = elim (Fallible-cases (result_of answer)) [
  | inl (body, e) ↦ absurd (ground (arith, e, h, result_of-accepted answer))
  | inr (x, e) ↦ rw e (refl, run_with-Undirected rounds (record c { is_registered = false }) u)
]
