-- ===== src/Deploy/ScheduledTask.antt =====
-- crates/rustify-deploy/src/scheduled_task.rs: the container and the command of a scheduled task.
pub mod Choice
pub mod Tables
pub mod Run
pub mod Dispatch
pub mod Once
pub mod Retries
pub mod Runs
pub mod Closed
mod Tests
use rustify.Prelude.{
  ℕ, Bool, true, false, not, Option, none, some, List, [], ◌∷◌, ◌++◌, Str, str_eq, codes,
  starts_with, find, filter, if◌then◌else◌, map_option, unwrap_or,
}
use rustify.Prelude.Chars.{trim, replace_char}
use rustify.Prelude.Shell.{is_quote}

unfoldable pub docker_exec_command : Str → Str → Str
unfolding replace_char
docker_exec_command container command =
    codes "docker exec "
    ++ container
    ++ codes " sh -c "
    ++ (39 ∷ (replace_char is_quote (codes "'\\''") command ++ 39 ∷ []))

pub data TaskError : Type 0 where
  none_running : TaskError  -- No containers running.
  no_name : TaskError  -- More than one container exists but no container name was provided.
  no_match : TaskError  -- No valid container was found.

pub data Resolved : Type 0 where
  ok : Str → Resolved
  err : TaskError → Resolved

-- A name that is not blank.
unfoldable pub named : Option Str → Option Str
unfolding trim str_eq
named none = none
named (some c) = if str_eq (trim c) [] then none else some (trim c)

abbrev pub prefix_of : Option Str → Str → Str
prefix_of name resource_uuid = unwrap_or name [] ++ codes "-" ++ resource_uuid

abbrev pub or_no_match : Option Str → Resolved
or_no_match none = err no_match
or_no_match (some c) = ok c

-- `name` is the task's, trimmed.
unfoldable pub choose : List Str → Option Str → Str → Resolved
unfolding starts_with
choose [] name resource_uuid = err none_running
choose (c ∷ []) name resource_uuid = ok c
choose (c ∷ d ∷ cs) none resource_uuid = err no_name
choose (c ∷ d ∷ cs) (some n) resource_uuid =
    or_no_match (find (starts_with (prefix_of (some n) resource_uuid)) (c ∷ d ∷ cs))

unfoldable pub resolve_container : List Str → Option Str → Str → Resolved
unfolding named choose
resolve_container containers task_container resource_uuid =
    choose containers (named task_container) resource_uuid
