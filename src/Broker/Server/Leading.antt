-- ===== src/Broker/Server/Leading.antt =====
-- packages/broker/src/server.ts: what is known where `start` of a new server returns.
use osqueue.Base.{
  ℕ, ◌<◌, ◌≡◌, refl, sym, ap, ◌∙◌, subst, ◌⊎◌, inl, inr, true, [], Option, none, some, option_eq,
  string_eq, arith,
}
use osqueue.Types.{JobId, MutationResult}
use osqueue.Types.Errors.{Result, ok, thrown}
use osqueue.Storage.{StorageBackend}
use osqueue.Engine.{Codec, World, Settlement, resolved, rejected}
use osqueue.Engine.Commit.{start}
use osqueue.Engine.Commit.Registered.{Registers, Told}
use osqueue.Engine.Commit.Registered.Started.{start-Told}
use osqueue.Election.{ElectionResult, elected, already_leader, other_leader, conflict, try_elect}
use osqueue.Broker.Server.{
  ServerOptions, address, engine_options, server_election, BrokerServer, new_server, Started,
  started, hangs, failed, check_intervals, check_election, register, listen, registered,
  engine_started, after_election, after_check, start_server, settled_of,
}

check_intervals-ok :
    (o : ServerOptions)
    → check_intervals o ≡ ok tt
    → o.heartbeat_interval_ms < o.heartbeat_timeout_ms
unfolding check_intervals
check_intervals-ok o h = ground arith

abbrev pub Elects : Result ElectionResult → Type 0
Elects r = (r ≡ ok elected) ⊎ (r ≡ ok already_leader)

check_election-ok : (r : Result ElectionResult) → check_election r ≡ ok tt → Elects r
unfolding check_election
check_election-ok (thrown e) h = absurd (cc)
check_election-ok (ok elected) h = inl refl
check_election-ok (ok already_leader) h = inr refl
check_election-ok (ok (other_leader leader)) h = absurd (cc)
check_election-ok (ok conflict) h = absurd (cc)

module _ (uuid : ℕ → JobId) (K : Codec) (S : StorageBackend K.Bytes) (o : ServerOptions) (now : ℕ)
    (clock : ℕ → ℕ) (listens : Result (Unit {0})) where
  open S use {State}

  -- The server runs and listens, its timer is set, and its registration is in the store.
  pub record Runs (b : BrokerServer State) : Type 0 where
    pub running : b.running ≡ true
    pub listening : b.listening ≡ true
    pub timer : b.heartbeat_timer ≡ some o.heartbeat_interval_ms
    pub registers : Registers uuid K S (engine_options o) (address o) now b.world

  -- A server that was started, on the states it passes through.
  abbrev IfStarted : (BrokerServer State → Type 0) → Started × BrokerServer State → Type 0
  IfStarted P (started, b) = P b
  IfStarted P (hangs, b) = Unit {0}
  IfStarted P (failed e, b) = Unit {0}

  weaken :
      {P Q : BrokerServer State → Type 0} (x : Started × BrokerServer State)
      → ((b : BrokerServer State) → P b → Q b)
      → IfStarted P x
      → IfStarted Q x
  weaken (started, b) f p = f b p
  weaken (hangs, b) f p = tt
  weaken (failed e, b) f p = tt

  -- A registration whose promise is resolved was committed.
  resolved-Registers :
      (r : MutationResult) (w : World State)
      → settled_of 0 w.engine.settled ≡ some (resolved r)
      → Told uuid K S (engine_options o) (address o) now w
      → Registers uuid K S (engine_options o) (address o) now w
  unfolding settled_of
  resolved-Registers r w e (inl h) = h
  resolved-Registers r w e (inr (inl h)) = absurd (unsettled (sym (ap (settled_of 0) h) ∙ e))
    where
      unsettled : none ≡ some (resolved r) → ⊥
      unsettled q = cc
  resolved-Registers r w e (inr (inr (x, h))) = absurd (unresolved (sym (ap (settled_of 0) h) ∙ e))
    where
      unresolved : some (rejected x) ≡ some (resolved r) → ⊥
      unresolved q = cc

  registered-Runs :
      (s : Option Settlement) (w : World State) (b : BrokerServer State)
      → settled_of 0 w.engine.settled ≡ s
      → Told uuid K S (engine_options o) (address o) now w
      → IfStarted Runs (registered uuid K S o listens (s, w) b)
  unfolding registered listen
  registered-Runs none w b e h = tt
  registered-Runs (some (rejected x)) w b e h = tt
  registered-Runs (some (resolved r)) w b e h = by_outcome listens
    where
      by_outcome :
          (l : Result (Unit {0})) → IfStarted Runs (listen uuid K S o l (record b { world = w }))
      by_outcome (thrown x) = tt
      by_outcome (ok _) = record {
        running = refl;
        listening = refl;
        timer = refl;
        registers = resolved-Registers r w e h;
      }

  engine_started-Runs :
      (r : Result (Unit {0})) (w : World State) (b : BrokerServer State)
      → (w.engine.next_ticket ≡ 0)
        × Told uuid K S (engine_options o) (address o) now (register uuid K S o now clock [] w).1
      → IfStarted Runs (engine_started uuid K S o now clock listens (r, w) b)
  unfolding engine_started register
  engine_started-Runs (thrown e) w b h = tt
  engine_started-Runs (ok _) w b (first, told) =
      let (s, w') = register uuid K S o now clock [] w in
      registered-Runs s w' b (ap (λ n. settled_of n w'.engine.settled) (sym first)) told

  -- What is known of a server that has been started on the store `s`.
  abbrev pub Leads : State → BrokerServer State → Type 0
  Leads s b' =
      (o.heartbeat_interval_ms < o.heartbeat_timeout_ms)
      × Elects (try_elect (server_election o) K S now s).0
      × Runs b'

  after_election-Leads :
      (c : Result (Unit {0})) (r : Result ElectionResult) (s : State)
      → check_election r ≡ c
      → IfStarted
          (λ b'. Elects r × Runs b')
          (after_election uuid K S o now clock listens c (new_server s))
  unfolding after_election register
  after_election-Leads (thrown e) r s h = tt
  after_election-Leads (ok _) r s h =
      let b = new_server s in
      let (e, w) = start uuid K S (engine_options o) b.world in
      let told = start-Told uuid K S (engine_options o) (address o) now clock s in
      weaken (engine_started uuid K S o now clock listens (e, w) b)
        (λ b' runs. (check_election-ok r h, runs)) (engine_started-Runs e w b told)

  after_check-Leads :
      (c : Result (Unit {0})) (s : State)
      → check_intervals o ≡ c
      → IfStarted (Leads s) (after_check uuid K S o now clock listens c (new_server s))
  unfolding after_check
  after_check-Leads (thrown e) s h = tt
  after_check-Leads (ok _) s h =
      let (r, s') = try_elect (server_election o) K S now s in
      weaken (after_election uuid K S o now clock listens (check_election r) (new_server s'))
        (λ b'' (wins, runs). (check_intervals-ok o h, wins, runs))
        (after_election-Leads (check_election r) r s' refl)

  -- If `start` of a new server returns, the heartbeat's interval is shorter than the time after which
  -- another broker takes over; the election was won or this broker led already; the engine wrote a
  -- state that names this broker, with the time of the start as its heartbeat, and the store took
  -- it; the engine has cached this state, and the promise of the registration is the only one that
  -- was settled, as resolved; and the server listens, runs, and has its heartbeat's timer set.
  pub start_server-Leads :
      (s : State) (b' : BrokerServer State)
      → start_server uuid K S o now clock listens (new_server s) ≡ (started, b')
      → Leads s b'
  unfolding start_server
  start_server-Leads s b' e =
      subst (IfStarted (Leads s)) e (after_check-Leads (check_intervals o) s refl)
