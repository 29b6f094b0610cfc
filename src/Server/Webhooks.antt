-- ===== src/Server/Webhooks.antt =====
-- crates/rustify-server/src/routes/webhooks.rs: the git hosts' webhooks. This file reads a payload
-- as an event. JSON is serde_json's: a value, its pointers and its scalars are parameters.
pub mod Enqueue
pub mod Dispatch
pub mod Handlers
pub mod Queues
pub mod Dispatched
pub mod Authentic
pub mod Bounded
mod Tests
use rustify.Prelude.{
  ℕ, Bool, true, false, not, ◌&&◌, ◌||◌, Option, none, some, List, [], ◌∷◌, map, Str, str_eq, codes,
  if◌then◌else◌, map_option, unwrap_or, ◌>>=◌,
}
use rustify.Prelude.Int.{ℤ, as_i32}
use rustify.Core.Webhook.{
  Provider, PrAction, gitlab, bitbucket, classify_pr_action, should_skip_deploy_all,
  should_skip_deploy_any, is_fork_pull_request, strip_refs_heads,
}

-- What the code calls of serde_json.
pub record Json : Type 1 where
  pub Value : Type 0
  pub from_slice : Str → Option Value
  pub pointer : Str → Value → Option Value
  pub as_str : Value → Option Str
  pub as_i64 : Value → Option ℤ
  pub as_array : Value → Option (List Value)

pub record Pull : Type 0 where
  pub action : PrAction
  pub pr : ℤ
  pub html_url : Option Str
  pub base_branch : Str
  pub commit : Option Str
  pub author_association : Option Str
  pub is_fork : Bool
  pub pr_deployable_ok : Bool

pub data Event : Type 0 where
  ping : Event
  push : Str → Option Str → Bool → Event  -- branch, commit, skip
  pull : Pull → Event

unfoldable pub event_branch : Event → Str
event_branch ping = []
event_branch (push branch commit skip) = branch
event_branch (pull p) = p.base_branch

module _ (J : Json) where
  open J use {Value, pointer, as_str, as_i64, as_array}

  unfoldable pub s : Str → Value → Option Str
  s ptr v = pointer ptr v >>= as_str

  unfoldable pub i : Str → Value → Option ℤ
  i ptr v = pointer ptr v >>= as_i64

  unfoldable pub messages : Str → Value → List (Option Str)
  unfolding s
  messages ptr v =
      unwrap_or (map_option (map (s (codes "/message"))) (pointer ptr v >>= as_array)) []

  unfoldable pub parse_push : Value → Option Event
  unfolding s messages strip_refs_heads should_skip_deploy_all
  parse_push payload = do
    git_ref ← s (codes "/ref") payload
    some (
        push (strip_refs_heads git_ref) (s (codes "/after") payload)
          (should_skip_deploy_all (messages (codes "/commits") payload)))

  unfoldable pub parse_pull_request : Provider → Value → Option Event
  unfolding s i classify_pr_action is_fork_pull_request should_skip_deploy_any
  parse_pull_request provider payload = do
    pr ← i (codes "/number") payload
    base_branch ← s (codes "/pull_request/base/ref") payload
    some (
        pull (record {
          action = classify_pr_action provider (unwrap_or (s (codes "/action") payload) []);
          pr = as_i32 pr;
          html_url = s (codes "/pull_request/html_url") payload;
          base_branch = base_branch;
          commit = s (codes "/pull_request/head/sha") payload;
          author_association = s (codes "/pull_request/author_association") payload;
          is_fork =
              is_fork_pull_request (i (codes "/pull_request/head/repo/id") payload)
                (i (codes "/pull_request/base/repo/id") payload);
          pr_deployable_ok =
              not (should_skip_deploy_any (s (codes "/pull_request/title") payload ∷ []));
        }))

  unfoldable pub parse_github_like : Provider → Str → Value → Option Event
  unfolding str_eq parse_push parse_pull_request
  parse_github_like provider event payload =
      if str_eq event (codes "ping")
      then some ping
      else if str_eq event (codes "push")
      then parse_push payload
      else if str_eq event (codes "pull_request")
      then parse_pull_request provider payload
      else none

  unfoldable pub parse_merge_request : Value → Option Event
  unfolding s i classify_pr_action should_skip_deploy_any
  parse_merge_request payload = do
    pr ← i (codes "/object_attributes/iid") payload
    base_branch ← s (codes "/object_attributes/target_branch") payload
    some (
        pull (record {
          action =
              classify_pr_action gitlab
                (unwrap_or (s (codes "/object_attributes/action") payload) []);
          pr = as_i32 pr;
          html_url = s (codes "/object_attributes/url") payload;
          base_branch = base_branch;
          commit = s (codes "/object_attributes/last_commit/id") payload;
          author_association = none;
          is_fork = false;
          pr_deployable_ok = not (
              should_skip_deploy_any (
                s (codes "/object_attributes/title") payload
                ∷ s (codes "/object_attributes/last_commit/message") payload
                ∷ []));
        }))

  unfoldable pub parse_gitlab : Str → Value → Option Event
  unfolding str_eq parse_push parse_merge_request
  parse_gitlab kind payload =
      if str_eq kind (codes "push")
      then parse_push payload
      else if str_eq kind (codes "merge_request")
      then parse_merge_request payload
      else none

  unfoldable pub parse_repo_push : Value → Option Event
  unfolding s messages should_skip_deploy_all
  parse_repo_push payload = do
    branch ← s (codes "/push/changes/0/new/name") payload
    some (
        push branch (s (codes "/push/changes/0/new/target/hash") payload)
          (should_skip_deploy_all (messages (codes "/push/changes/0/commits") payload)))

  unfoldable pub parse_pullrequest : Str → Value → Option Event
  unfolding s i classify_pr_action should_skip_deploy_any
  parse_pullrequest event_key payload = do
    pr ← i (codes "/pullrequest/id") payload
    base_branch ← s (codes "/pullrequest/destination/branch/name") payload
    some (
        pull (record {
          action = classify_pr_action bitbucket event_key;
          pr = as_i32 pr;
          html_url = s (codes "/pullrequest/links/html/href") payload;
          base_branch = base_branch;
          commit = s (codes "/pullrequest/source/commit/hash") payload;
          author_association = none;
          is_fork = false;
          pr_deployable_ok =
              not (should_skip_deploy_any (s (codes "/pullrequest/title") payload ∷ []));
        }))

  unfoldable pub parse_bitbucket : Str → Value → Option Event
  unfolding str_eq parse_repo_push parse_pullrequest
  parse_bitbucket event_key payload =
      if str_eq event_key (codes "repo:push")
      then parse_repo_push payload
      else if str_eq event_key (codes "pullrequest:created")
          || str_eq event_key (codes "pullrequest:updated")
          || str_eq event_key (codes "pullrequest:rejected")
          || str_eq event_key (codes "pullrequest:fulfilled")
      then parse_pullrequest event_key payload
      else none
