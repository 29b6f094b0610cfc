-- ===== src/Deploy/ScheduledTask/Choice.antt =====
-- The container that a task runs in, and the command that it runs there.
use rustify.Prelude.{
  Bool, true, Option, none, some, List, [], ◌∷◌, ◌++◌, Str, codes, starts_with, find, ◌≡◌, ◌⊎◌, inl,
  inr, refl, ap, ◌∙◌, In, arith, Bool-cases,
}
use rustify.Prelude.Chars.{replace_char}
use rustify.Prelude.Shell.{is_quote, bare, read_word, read_word-quoted, push_all}
use rustify.Deploy.ScheduledTask.{
  docker_exec_command, ok, err, named, prefix_of, or_no_match, choose, resolve_container,
}

push_all-nil : (s : Str) → push_all s (some ([], [])) ≡ some (s, [])
push_all-nil [] = refl
push_all-nil (c ∷ s) = rw (push_all-nil s) refl

-- The command line runs `docker exec` in the container, with `sh -c` and one word more, which the shell
-- reads as the task's command, whatever it contains.
pub docker_exec_command-read_word :
    (container command : Str)
    → (word : Str) × (docker_exec_command container command
        ≡ codes "docker exec " ++ container ++ codes " sh -c " ++ word)
      × (read_word bare word ≡ some (command, []))
unfolding docker_exec_command read_word
docker_exec_command-read_word container command = (
  39 ∷ (replace_char is_quote (codes "'\\''") command ++ 39 ∷ []),
  refl,
  read_word-quoted command [] ∙ push_all-nil command,
)

find_matches :
    {A : Type 0} (p : A → Bool) (xs : List A) (x : A) → find p xs ≡ some x → In x xs × (p x ≡ true)
find_matches p [] x h = cc
find_matches p (y ∷ ys) x h = elim (Bool-cases (p y)) [
  | inl e ↦ ground (arith, e, ap p {x = y} {y = x})
  | inr e ↦ ground (arith, e, find_matches p ys x)
]

or_no_match_ok : (o : Option Str) (c : Str) → or_no_match o ≡ ok c → o ≡ some c
or_no_match_ok none c h = cc
or_no_match_ok (some d) c h = ap (λ r. elim r [ ok x ↦ some x | err e ↦ none ]) h

choose-In :
    (containers : List Str) (name : Option Str) (uuid c : Str)
    → choose containers name uuid ≡ ok c
    → In c containers × ((containers ≡ c ∷ []) ⊎ (starts_with (prefix_of name uuid) c ≡ true))
unfolding choose
choose-In [] name uuid c h = cc
choose-In (d ∷ []) name uuid c h =
    let e = ap (λ r. elim r [ ok x ↦ x | err e ↦ d ]) h in (inl e, inl (ap (λ x. x ∷ []) e))
choose-In (d ∷ e ∷ ds) none uuid c h = cc
choose-In (d ∷ e ∷ ds) (some n) uuid c h =
    let (i, t) =
      find_matches (starts_with (prefix_of (some n) uuid)) (d ∷ e ∷ ds) c
        (or_no_match_ok (find (starts_with (prefix_of (some n) uuid)) (d ∷ e ∷ ds)) c h) in
    (i, inr t)

-- A container that is chosen is one of those that run, and it is the only one or its name begins with
-- the task's container name and the resource's uuid.
pub resolve_container-In :
    (containers : List Str) (task_container : Option Str) (uuid c : Str)
    → resolve_container containers task_container uuid ≡ ok c
    → In c containers
      × ((containers ≡ c ∷ []) ⊎ (starts_with (prefix_of (named task_container) uuid) c ≡ true))
unfolding resolve_container
resolve_container-In containers task_container uuid c =
    choose-In containers (named task_container) uuid c
