-- ===== src/Tests/Servers.antt =====
-- The life of a broker at concrete inputs.
use osqueue.Base.{◌≡◌, refl, ℕ, String, [], ◌∷◌, Option, none, some, string_eq, true}
use osqueue.Base.Decimal.{decimal}
use osqueue.Types.{QueueState}
use osqueue.Types.Errors.{ok}
use osqueue.Queue.{expire_heartbeats, expire_jobs, apply_mutation, register_broker}
use osqueue.Base.Dict.{lookup, insert}
use osqueue.Storage.Memory.{read, write}
use osqueue.Storage.Memory.Shared.{
  Shared, shared_backend, shared_view, shared_read, shared_write, let_others, shared-IsJournaled,
}
use osqueue.Engine.Commit.Atomic.{Commits}
use osqueue.Broker.Server.Heartbeat.{registering, on_heartbeat-Commits}
use osqueue.Storage.{StorageBackend}
use osqueue.Engine.{Codec, World, new_engine, submit, apply_batch, resolve_all}
use osqueue.Engine.Commit.{start, write_loop, process_buffer, attempts, attempt, refresh_cache}
use osqueue.Election.{try_elect}
use osqueue.Broker.Server.{
  ServerOptions, complete_server_options, BrokerServer, new_server, start_server, engine_options,
  check_election, register, settled_of, address, on_heartbeat,
}
use osqueue.Broker.Server.Leading.{Leads, start_server-Leads}

abbrev plain : Codec
plain = record { Bytes = QueueState; encode = λ state. state; decode = ok }

-- A storage with no other client, that holds no object at first.
abbrev alone : StorageBackend QueueState
alone = record {
  State = Option QueueState;
  read = λ k s. (
    ok (elim s [
      | none ↦ none
      | some b ↦ some record { bytes = b; version = record { token = "1" } }
    ]),
    s,
  );
  write = λ k bytes v s. (ok (record { token = "1" }), some bytes);
  create_if_not_exists = λ k bytes s. (ok (record { token = "1" }), some bytes);
}

abbrev options : ServerOptions
options = complete_server_options record {
  host = none;
  port = none;
  heartbeat_interval_ms = none;
  heartbeat_timeout_ms = none;
  group_commit_interval_ms = none;
}

abbrev server : BrokerServer (Option QueueState)
server = new_server none

abbrev clock : ℕ → ℕ
clock i = 5

start_server-Leads_example :
    Leads decimal plain alone options 5 clock
      (ok tt)
      none
      (start_server decimal plain alone options 5 clock (ok tt) server).1
unfolding start_server try_elect start write_loop attempts attempt submit apply_batch resolve_all
    apply_mutation check_election register
start_server-Leads_example =
    start_server-Leads decimal plain alone options 5 clock (ok tt) none
      (start_server decimal plain alone options 5 clock (ok tt) server).1 refl

-- Another broker has taken over, at the time 4.
abbrev usurped : QueueState
usurped = record { broker = some "other:1"; broker_heartbeat = 4; jobs = []; completed_total = 0 }

abbrev key : String
key = "queue.json"

abbrev running_server : BrokerServer (Shared QueueState)
running_server = record {
  world = record {
    engine = record new_engine { running = true };
    store = record {
      memory = record {
        objects = (key, record { bytes = usurped; version = 1 }) ∷ [];
        fail_with = none;
      };
      journal = usurped ∷ [];
      others = [];
    };
  };
  running = true;
  heartbeat_timer = some 3000;
  listening = true;
}

abbrev after_beat : World (Shared QueueState)
after_beat = (register decimal plain (shared_backend key) options 5 clock [] running_server.world).1

beat_committed :
    Commits decimal plain
      (shared_backend key)
      (engine_options options)
      (shared_view key)
      (shared-IsJournaled key)
      (λ s. refl)
      (registering decimal plain
        (shared_backend key)
        options
        (shared_view key)
        (shared-IsJournaled key)
        (λ s. refl)
        0
        5
        [])
      running_server.world
      after_beat
unfolding register write_loop process_buffer attempts attempt refresh_cache submit shared_read
    shared_write let_others read write lookup insert string_eq decimal expire_heartbeats expire_jobs
    apply_mutation apply_batch resolve_all
beat_committed = record {
  earlier = [];
  last = usurped;
  base = usurped;
  now = 5;
  drawn = 0;
  since = ([], refl);
  decoded = refl;
  added = refl;
  settles = refl;
}

on_heartbeat-Commits_example :
    (on_heartbeat decimal plain (shared_backend key) options 5 clock [] running_server).running
    ≡ true
unfolding register write_loop process_buffer attempts attempt refresh_cache submit shared_read
    shared_write let_others read write lookup insert string_eq decimal expire_heartbeats expire_jobs
    apply_mutation apply_batch resolve_all settled_of register_broker
on_heartbeat-Commits_example =
    on_heartbeat-Commits decimal plain (shared_backend key) options (shared_view key)
      (shared-IsJournaled key) (λ s. refl) running_server 5 0 5 clock [] []
      record { claimed_job = none; enqueued_ids = none } running_server.world after_beat
      record {
        bytes = record {
          broker = some (address options);
          broker_heartbeat = 5;
          jobs = [];
          completed_total = 0;
        };
        version = record { token = "2" };
      }
      (usurped ∷ []) refl refl beat_committed refl refl
