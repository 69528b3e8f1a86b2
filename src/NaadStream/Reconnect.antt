-- ===== src/NaadStream/Reconnect.antt =====
-- How the client reconnects, and what it tells of it (providers/naad_stream.py).
use cap_alerts.Prelude.{
  ℕ, suc, ◌+◌, ◌-◌, ◌*◌, ◌≤◌, ◌<◌, ◌≡◌, ◌⊎◌, inl, inr, refl, subst, Bool, true, false, not, List,
  [], ◌∷◌, arith, ltb, Bool-cases, if◌then◌else◌,
}
use cap_alerts.Prelude.Lists.{All, length}
use cap_alerts.NaadStream.Client.{
  Client, Patterns, Reading, Uniform, Sleep, Attempt, refused, session, last_session, new_client,
  set_connected, wait, reset, refuse, serve, run_loop, run, read_loop, saw_data, backoff_min,
  backoff_max, doubled,
}

-- The notifications, the last first, take turns and end with the present state.
abbrev pub Alternates : Bool → List Bool → Type 0
Alternates connected [] = connected ≡ false
Alternates connected (told ∷ earlier) = (told ≡ connected) × Alternates (not connected) earlier

-- `random.uniform(0, ceiling)` is not above its ceiling.
abbrev pub IsUniform : Uniform → Type 0
IsUniform uniform = (n ceiling : ℕ) → uniform n ceiling ≤ ceiling

abbrev pub InRange : ℕ → Type 0
InRange ceiling = (backoff_min ≤ ceiling) × (ceiling ≤ backoff_max)

abbrev pub IsBounded : Sleep → Type 0
IsBounded s = InRange s.ceiling × (s.delay ≤ s.ceiling)

-- Twice as much, or the greatest backoff where that is more.
abbrev pub Doubles : ℕ → ℕ → Type 0
Doubles old next =
    ((old * 2 ≤ backoff_max) × (next ≡ old * 2)) ⊎ ((backoff_max < old * 2) × (next ≡ backoff_max))

doubled-Doubles : (old : ℕ) → Doubles old (doubled old)
doubled-Doubles old = elim (Bool-cases (ltb backoff_max (old * 2))) [
  | inl e ↦ rw e (inr (ground arith, refl))
  | inr e ↦ rw e (inl (ground arith, refl))
]

-- The ceilings of the sleeps, the last first, and the one to come: the first is the least backoff,
-- and each other is the least backoff or the one before, doubled up to the greatest.
abbrev pub Grows : ℕ → List Sleep → Type 0
Grows next [] = next ≡ backoff_min
Grows next (s ∷ earlier) = (Doubles s.ceiling next ⊎ (next ≡ backoff_min)) × Grows s.ceiling earlier

-- The sessions that are opened.
abbrev pub opened : List Attempt → ℕ
opened [] = 0
opened (refused ∷ attempts) = opened attempts
opened (session readings ∷ attempts) = suc (opened attempts)
opened (last_session readings ∷ attempts) = 1

-- Between two attempts; `n` sessions have been opened.
pub record IsSteady (n : ℕ) (c : Client) : Type 0 where
  pub closed : c.connected ≡ false
  pub alternates : Alternates false c.notified
  pub range : InRange c.backoff
  pub ranges : All IsBounded c.sleeps
  pub grows : Grows c.backoff c.sleeps
  pub counted : c.backfills ≡ n - 1
  pub started : c.first ≡ (if ltb 0 n then false else true)

reset-IsSteady : (n : ℕ) (saw : Bool) (c : Client) → IsSteady n c → IsSteady n (reset saw c)
reset-IsSteady n saw c s = record {
  closed = s.closed;
  alternates = s.alternates;
  range = in_range saw;
  ranges = s.ranges;
  grows = growing saw;
  counted = s.counted;
  started = s.started;
}
  where
    in_range : (saw : Bool) → InRange (if saw then backoff_min else c.backoff)
    in_range true = (omega arith, omega arith)
    in_range false = s.range

    from_least : (sleeps : List Sleep) (next : ℕ) → Grows next sleeps → Grows backoff_min sleeps
    from_least [] next g = refl
    from_least (sleep ∷ earlier) next (e, g) = (inr refl, g)

    growing : (saw : Bool) → Grows (if saw then backoff_min else c.backoff) c.sleeps
    growing true = from_least c.sleeps c.backoff s.grows
    growing false = s.grows

module _ (uniform : Uniform) (law : IsUniform uniform) where
  wait-IsSteady : (n : ℕ) (c : Client) → IsSteady n c → IsSteady n (wait uniform c)
  wait-IsSteady n c s = record {
    closed = s.closed;
    alternates = s.alternates;
    range = (ground (arith, s.range.0, s.range.1), ground (arith, s.range.0, s.range.1));
    ranges = ((s.range, law (length c.sleeps) c.backoff), s.ranges);
    grows = (inl (doubled-Doubles c.backoff), s.grows);
    counted = s.counted;
    started = s.started;
  }

  refuse-IsSteady : (n : ℕ) (c : Client) → IsSteady n c → IsSteady n (refuse uniform c)
  refuse-IsSteady n c s = wait-IsSteady n _ (record {
    closed = s.closed;
    alternates = s.alternates;
    range = s.range;
    ranges = s.ranges;
    grows = s.grows;
    counted = s.counted;
    started = s.started;
  })

start : IsSteady 0 new_client
start = record {
  closed = refl;
  alternates = refl;
  range = (omega arith, omega arith);
  ranges = tt;
  grows = refl;
  counted = refl;
  started = refl;
}

module _ (p : Patterns) where
  serve-IsSteady :
      (n : ℕ) (readings : List Reading) (c : Client)
      → IsSteady n c
      → IsSteady (suc n) (serve p readings c)
  unfolding serve set_connected
  serve-IsSteady n readings c s =
      rw (set_connected, s.closed)
        (record {
          closed = refl;
          alternates = (refl, (refl, s.alternates));
          range = s.range;
          ranges = s.ranges;
          grows = s.grows;
          counted = ground arith;
          started = ground arith;
        })

module _ (p : Patterns) (uniform : Uniform) (law : IsUniform uniform) where
  run_loop-IsSteady :
      (attempts : List Attempt) (n : ℕ) (c : Client)
      → IsSteady n c
      → IsSteady (n + opened attempts) (run_loop p uniform attempts c)
  unfolding run_loop
  run_loop-IsSteady [] n c s = subst (λ m. IsSteady m c) (omega arith) s
  run_loop-IsSteady (refused ∷ attempts) n c s =
      run_loop-IsSteady attempts n (refuse uniform c) (refuse-IsSteady uniform law n c s)
  run_loop-IsSteady (session readings ∷ attempts) n c s =
      subst (λ m. IsSteady m (run_loop p uniform (session readings ∷ attempts) c)) (omega arith)
        (run_loop-IsSteady attempts (suc n) _ (
          wait-IsSteady uniform law (suc n) _ (
            reset-IsSteady (suc n) (saw_data (read_loop readings [] false)) _
              (serve-IsSteady p n readings c s))))
  run_loop-IsSteady (last_session readings ∷ attempts) n c s =
      subst (λ m. IsSteady m (serve p readings c)) (omega arith) (serve-IsSteady p n readings c s)

  -- Whatever the socket does until the client is stopped, and whatever `random.uniform` answers up to
  -- its ceiling: the client ends disconnected, its notifications take turns between connected and
  -- disconnected, every sleep before a new attempt is at most its ceiling, which lies between the
  -- least and the greatest backoff, the ceilings start at the least backoff and each next one is
  -- the one before, doubled up to the greatest, or the least again, and a backfill is asked for at
  -- each session but the first.
  pub run-IsSteady :
      (attempts : List Attempt)
      → ((run p uniform attempts new_client).connected ≡ false)
        × Alternates false (run p uniform attempts new_client).notified
        × All IsBounded (run p uniform attempts new_client).sleeps
        × Grows
            (run p uniform attempts new_client).backoff
            (run p uniform attempts new_client).sleeps
        × ((run p uniform attempts new_client).backfills ≡ opened attempts - 1)
  unfolding run set_connected
  run-IsSteady attempts =
      let s = run_loop-IsSteady attempts 0 new_client start in
      rw (set_connected, s.closed)
        (s.closed, s.alternates, s.ranges, s.grows, omega (arith, s.counted))
