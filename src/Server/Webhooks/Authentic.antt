-- ===== src/Server/Webhooks/Authentic.antt =====
-- For whom a webhook queues work: the applications of its branch and repository whose secret signs it.
use rustify.Prelude.{
  ℕ, Bool, true, false, ◌&&◌, ◌⊎◌, inl, inr, Option, none, some, List, [], ◌∷◌, Str, str_eq,
  str_eq_sound, codes, ◌≡◌, refl, sym, ap, subst, ◌∙◌, In, In-filter, Bool-cases, Option-cases,
  if◌then◌else◌, ◌>>=◌ as ◌>>=?◌, map,
}
use rustify.Prelude.Chars.{ascii_lower}
use rustify.Core.Webhook.{Provider, normalize_full_name, strip_sha256_prefix}
use rustify.Core.Webhook.Repository.{canonical_repository, verify_hmac_sha256}
use rustify.Server.Webhooks.{Json, Event, ping, event_branch, s, parse_github_like}
use rustify.Server.Webhooks.Enqueue.{Application, State, World, query, counted}
use rustify.Server.Webhooks.Dispatch.{
  filter_manual, same_repository, decrypt_manual_webhook_secret, stored_secret, secret_column, join,
  is_name, passes, read_secret,
}
use rustify.Server.Webhooks.Handlers.{
  Headers, header_or_empty, run_candidates, run_manual, hmac_manual, list_by_branch,
}
use rustify.Server.Webhooks.Queues.{Queues, same, Queues-trans, Queues_weaken}
use rustify.Server.Webhooks.Dispatched.{idle, run_for_apps-Queues}

-- The stored secret of the application's row verifies the request.
abbrev pub Signs : World → Str → (Str → Bool) → State → Application → Type 0
Signs W git_type check t a =
    (column : Application → Option Str) × (secret : Str) × (secret_column git_type ≡ some column)
    × (stored_secret W column a.id t ≡ some secret)
    × (check secret ≡ true)

-- The application is on the branch, at the repository, and its secret verifies the request.
abbrev pub Authentic : World → Str → Str → Str → (Str → Bool) → State → Application → Type 0
Authentic W branch full_name git_type check t a =
    In a t.applications
    × (a.git_branch ≡ branch)
    × (canonical_repository a.git_repository ≡ some full_name)
    × Signs W git_type check t a

stored_secret_same :
    (W : World) (column : Application → Option Str) (id : ℕ) (t u : State)
    → u.applications ≡ t.applications
    → stored_secret W column id u ≡ stored_secret W column id t
unfolding stored_secret
stored_secret_same W column id t u e = rw e refl

is_name_sound :
    (full_name : Str) (name : Option Str) → is_name full_name name ≡ true → name ≡ some full_name
is_name_sound full_name none h = cc
is_name_sound full_name (some name) h = ap some (str_eq_sound name full_name h)

kept :
    {A : Type 0} (b : Bool) (x : A) (xs : List A) (a : A)
    → In a (if b then x ∷ xs else xs)
    → ((b ≡ true) × (x ≡ a)) ⊎ In a xs
kept true x xs a (inl e) = inl (refl, e)
kept true x xs a (inr i) = inr i
kept false x xs a i = inr i

and-true : (a b : Bool) → (a && b) ≡ true → (a ≡ true) × (b ≡ true)
and-true true b h = (refl, h)
and-true false b h = cc

module _ (W : World) (git_type : Str) (check : Str → Bool) where
  -- Reading a secret changes no table, and a secret that is read is the stored one.
  read_secret-Queues :
      (P : Application → Type 0) (ev : Event) (column : Option (Application → Option Str)) (id : ℕ)
      (t : State)
      → Queues W P ev t (read_secret W column id t).1
  unfolding read_secret
  read_secret-Queues P ev none id t = idle W P ev t
  read_secret-Queues P ev (some column) id t = same W P ev t _ refl refl refl

  passes-some :
      (secret : Option Str)
      → passes check secret ≡ true
      → (k : Str) × (secret ≡ some k) × (check k ≡ true)
  passes-some none h = cc
  passes-some (some k) h = (k, refl, h)

  join_if :
      (b : Bool) (secret : Option Str) (k : Str)
      → join (if b then some secret else none) ≡ some k
      → secret ≡ some k
  join_if true secret k h = h
  join_if false secret k h = cc

  read_secret-Signs :
      (column : Option (Application → Option Str)) (a : Application) (t : State)
      → secret_column git_type ≡ column
      → passes check (read_secret W column a.id t).0 ≡ true
      → Signs W git_type check t a
  unfolding read_secret
  read_secret-Signs none a t e h = cc
  read_secret-Signs (some column) a t e h =
      let (k, f, c) = passes-some _ h in (column, k, e, join_if (W.reaches t.statements) _ k f, c)

  Signs-same :
      (a : Application) (t u : State)
      → u.applications ≡ t.applications
      → Signs W git_type check u a
      → Signs W git_type check t a
  unfolding stored_secret
  Signs-same a t u e (column, k, c, f, g) =
      (column, k, c, sym (stored_secret_same W column a.id t u e) ∙ f, g)

  filter_manual-Queues :
      (P : Application → Type 0) (ev : Event) (apps : List Application) (full_name : Str)
      (t : State)
      → Queues W P ev t (filter_manual W apps full_name git_type check t).1
  unfolding filter_manual
  filter_manual-Queues P ev [] full_name t = idle W P ev t
  filter_manual-Queues P ev (a ∷ apps) full_name t =
      elim (same_repository full_name a)
        as (λ b.
          Queues W P ev t
            (filter_manual W apps full_name git_type check
              (if b then (decrypt_manual_webhook_secret W a.id git_type t).1 else t)).1) [
                | true ↦
                    Queues-trans W P ev t _ _
                      (read_secret-Queues P ev (secret_column git_type) a.id t)
                      (filter_manual-Queues P ev apps full_name _)
                | false ↦ filter_manual-Queues P ev apps full_name t
              ]

  read_applications :
      (b : Bool) (id : ℕ) (t : State)
      → (if b then (decrypt_manual_webhook_secret W id git_type t).1 else t).applications
        ≡ t.applications
  unfolding decrypt_manual_webhook_secret read_secret
  read_applications true id t =
      (read_secret-Queues (λ _. Unit) ping (secret_column git_type) id t).same_applications
  read_applications false id t = refl

  -- What the filter keeps is of the repository and signs the request.
  filter_manual-Signs :
      (apps : List Application) (full_name : Str) (t : State) (a : Application)
      → In a (filter_manual W apps full_name git_type check t).0
      → In a apps
        × (canonical_repository a.git_repository ≡ some full_name)
        × Signs W git_type check t a
  unfolding filter_manual
  filter_manual-Signs [] full_name t a h = absurd h
  filter_manual-Signs (b ∷ apps) full_name t a h =
      elim (kept
        (same_repository full_name b
          && passes check (decrypt_manual_webhook_secret W b.id git_type t).0)
        b _ a h) [
          | inl (both, e) ↦
              let (same, passed) = and-true _ _ both in
              subst
                (λ (x : Application).
                  ((b ≡ x) ⊎ In x apps)
                  × (canonical_repository x.git_repository ≡ some full_name)
                  × Signs W git_type check t x)
                e
                (
                  inl refl,
                  is_name_sound full_name _ same,
                  read_secret-Signs (secret_column git_type) b t refl passed,
                )
          | inr i ↦
              let (j, n, signs) = filter_manual-Signs apps full_name _ a i in
              (
                inr j,
                n,
                Signs-same a t
                    (if same_repository full_name b
                      then (decrypt_manual_webhook_secret W b.id git_type t).1
                      else t)
                    (read_applications _ b.id t) signs,
              )
        ]

module _ (J : Json) (W : World) where
  -- The candidates are those of the branch.
  run_candidates-Queues :
      (found : Bool) (full_name git_type : Str) (ev : Event) (check : Str → Bool) (t u : State)
      → u.applications ≡ t.applications
      → Queues W
          (Authentic W (event_branch ev) full_name git_type check t)
          ev
          u
          (run_candidates J W
            (if found then some (list_by_branch (event_branch ev) t) else none)
            full_name
            git_type
            ev
            check
            u).1
  unfolding run_candidates list_by_branch
  run_candidates-Queues false full_name git_type ev check t u e = idle W _ ev u
  run_candidates-Queues true full_name git_type ev check t u e =
      let apps = list_by_branch (event_branch ev) t in
      Queues-trans W _ ev u _ _ (filter_manual-Queues W git_type check _ ev apps full_name u) (
        run_for_apps-Queues W _ _ git_type ev [] _ λ a i.
          let (j, n, signs) = filter_manual-Signs W git_type check apps full_name u a i in
          let (k, b) = In-filter _ a t.applications j in
          (k, str_eq_sound _ _ b, n, Signs-same W git_type check a t u e signs))

  run_manual-Queues :
      (name : Option Str) (git_type : Str) (ev : Event) (check : Str → Bool) (t : State)
      → Queues W
          (λ a.
            (full_name : Str) × (name ≡ some full_name)
            × Authentic W (event_branch ev) full_name git_type check t a)
          ev
          t
          (run_manual J W name git_type ev check t).1
  unfolding run_manual query
  run_manual-Queues none git_type ev check t = idle W _ ev t
  run_manual-Queues (some full_name) git_type ev check t =
      Queues-trans W _ ev t (counted t) _ (same W _ ev t (counted t) refl refl refl) (
        Queues_weaken W _ _ ev _ _ (λ a h. (full_name, refl, h))
          (run_candidates-Queues (W.reaches t.statements) full_name git_type ev check t (counted t)
            refl))

  -- The payload that the body parses to is the event, and names the application's repository.
  abbrev pub Requested : Provider → Str → Str → Headers → Str → State → Event → Application → Type 0
  Requested provider git_type event_header headers body t ev a =
      (payload : Json.Value J) × (full_name : Str) × (J.from_slice body ≡ some payload)
      × (parse_github_like J provider (map ascii_lower (header_or_empty headers event_header))
            payload
          ≡ some ev)
      × ((s J (codes "/repository/full_name") payload >>=? normalize_full_name) ≡ some full_name)
      × Authentic W (event_branch ev) full_name git_type
          (λ secret.
            verify_hmac_sha256 W.hmac secret body
              (strip_sha256_prefix (header_or_empty headers (codes "X-Hub-Signature-256"))))
          t a

  -- After a manual webhook of GitHub or Gitea there is an event (the one in the body, if any) such
  -- that every deployment and job that was added is for an application whose branch and repository
  -- the body names and whose own secret signs the body; nothing was dropped.
  pub hmac_manual-Queues :
      (provider : Provider) (git_type event_header : Str) (headers : Headers) (body : Str)
      (t : State)
      → (ev : Event) × Queues W
          (Requested provider git_type event_header headers body t ev)
          ev
          t
          (hmac_manual J W provider git_type event_header headers body t).1
  unfolding hmac_manual
  hmac_manual-Queues provider git_type event_header headers body t =
      let event = map ascii_lower (header_or_empty headers event_header) in
      elim (Bool-cases (str_eq event (codes "ping"))) [
        | inl e ↦ (ping, rw e (idle W _ ping t))
        | inr e ↦ elim (Option-cases (J.from_slice body)) [
          | inl f ↦ (ping, rw (e, f) (idle W _ ping t))
          | inr (payload, f) ↦ elim (Option-cases (parse_github_like J provider event payload)) [
            | inl g ↦ (ping, rw (e, f, g) (idle W _ ping t))
            | inr (ev, g) ↦ (
              ev,
              rw (e, f, g)
                  (Queues_weaken W _ _ ev _ _ (λ a (name, n, h). (payload, name, f, g, n, h))
                    (run_manual-Queues _ git_type ev _ t)),
            )
          ]
        ]
      ]
