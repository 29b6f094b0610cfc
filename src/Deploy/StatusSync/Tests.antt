-- ===== src/Deploy/StatusSync/Tests.antt =====
-- A container that restarts too often, and one of an application that runs.
use rustify.Prelude.{
  ℕ, Bool, true, Option, none, some, List, [], ◌∷◌, ◌++◌, Str, codes, str_eq, ◌≡◌, refl, arith, map,
  if◌then◌else◌, ◌==◌,
}
use rustify.Prelude.Int.{pos}
use rustify.Docker.{PsLine}
use rustify.Deploy.Host.{World, Session, Reply, output}
use rustify.Deploy.StatusSync.{Application, Server, StatusEvent, Tables, sync_all, desired_status}
use rustify.Deploy.StatusSync.Mirror.{shown, replay}
use rustify.Deploy.StatusSync.Swept.{sync_all-replay}

abbrev app : ℕ → Str → Application
app n uuid = record {
  id = n;
  uuid = uuid;
  status = codes "running";
  restart_count = pos 0;
  max_restart_count = pos 3;
}

-- One line of `docker ps`, and a container restarted five times.
abbrev world : World
world = record {
  reaches = λ _. true;
  now = λ n. n;
  uuid = λ n. n ∷ [];
  reply = λ n. output (record {
    exit_code = pos 0;
    stdout = if n == 0 then codes "line" else codes "5";
    stderr = [];
  });
  error_text = [];
}

abbrev from_line : Str → Option PsLine
from_line _ = some (record {
  id = codes "c";
  names = codes "web";
  image = codes "i";
  state = codes "restarting";
  labels = codes "rustify.managed=true,rustify.applicationUuid=a";
})

abbrev session : Session Tables
session = record {
  statements = 0;
  trace = [];
  sleeps = [];
  tables = record {
    servers = record { id = 1; uuid = codes "h"; usable = true } ∷ [];
    applications = app 1 (codes "a") ∷ app 2 (codes "b") ∷ [];
    events = [];
  };
}

abbrev swept : Tables
swept = (sync_all world from_line (λ s. s) session).1.tables

sync_all-replay_example :
    (more : List StatusEvent) × (swept.events ≡ [] ++ more)
    × (shown (codes "a") swept.applications
        ≡ replay (codes "a") more (shown (codes "a") session.tables.applications))
sync_all-replay_example =
    sync_all-replay world from_line (λ s. s) (codes "a") session
      (unfold str_eq in ((refl, (refl, tt)), (((refl, (refl, tt))), tt)))

crashed : swept.events ≡ record { application = codes "a"; status = codes "crashed" } ∷ []
unfolding sync_all rustify.Deploy.Host.◌>>=◌ rustify.Deploy.Host.query
    rustify.Deploy.StatusSync.sync_servers rustify.Prelude.str_eq rustify.Deploy.Host.lift
    rustify.Deploy.StatusSync.reconcile_reply rustify.Deploy.Host.exec
    rustify.Deploy.StatusSync.reconcile rustify.Docker.parse_containers
    rustify.Deploy.StatusSync.reconcile_found rustify.Deploy.StatusSync.reconcile_app
    rustify.Deploy.StatusSync.write_status rustify.Deploy.StatusSync.new_status
    rustify.Deploy.StatusSync.inspect_restart_count rustify.Prelude.Int.parse_int
    rustify.Deploy.StatusSync.announce rustify.Deploy.StatusSync.set_status
    rustify.Deploy.Host.continue rustify.Deploy.Host.modify rustify.Deploy.Host.statement
    rustify.Deploy.StatusSync.send_change rustify.Deploy.StatusSync.set_restart_count
    rustify.Docker.label_value rustify.Prelude.Chars.trim
crashed = refl
