-- ===== src/Deploy/StatusSync/Swept.antt =====
-- The events of a sweep tell every change of a status, in order.
use rustify.Prelude.{
  Option, none, some, List, [], ◌∷◌, ◌++◌, append-nil, append_assoc, map, map_option, Str, str_eq,
  ◌==◌, ◌≡◌, refl, sym, ap, subst, ◌∙◌, inl, inr, Bool-cases, Option-cases, if◌then◌else◌, find, In,
  All, All-In, All-of_In,
}
use rustify.Prelude.Int.{ℤ}
use rustify.Docker.{PsLine, ManagedContainer, parse_containers}
use rustify.Deploy.Host.{
  World, Session, Reply, output, broken, lift, query, statement, exec, modify, counted,
}
use rustify.Deploy.Host.Keeps.{bind_keeps, query_keeps, if_keeps}
use rustify.Deploy.StatusSync.{
  Application, Server, StatusEvent, Tables, crash_loops, inspect_restart_count, new_status,
  set_restart_count, set_status, send_change, announce, write_status, reconcile_app,
  reconcile_found, reconcile_named, reconcile, reconcile_reply, sync_found, sync_servers, sync_all,
  ps_command, stop_command, inspect_command,
}
use rustify.Deploy.StatusSync.Mirror.{
  Keys, keys, IsKeyed, shown, replay, replay-append, keys-update, shown-keep, shown-set, find-keys,
}

module _ (W : World) (from_line : Str → Option PsLine) (to_lowercase : Str → Str) (uuid : Str)
    (s : Tables) (keyed : IsKeyed (map keys s.applications)) where
  -- The events since `s`, replayed, give the status of now.
  record Mirrors (u : Session Tables) : Type 0 where
    pub more : List StatusEvent
    pub events : u.tables.events ≡ s.events ++ more
    pub same : map keys u.tables.applications ≡ map keys s.applications
    pub replayed : shown uuid u.tables.applications ≡ replay uuid more (shown uuid s.applications)

  counted-Mirrors : (u : Session Tables) → Mirrors u → Mirrors (counted u)
  counted-Mirrors u h = record {
    more = h.more;
    events = h.events;
    same = h.same;
    replayed = h.replayed;
  }

  exec-Mirrors :
      (server script : Str) (u : Session Tables) → Mirrors u → Mirrors (exec W server script u).1
  unfolding exec
  exec-Mirrors server script u h = record {
    more = h.more;
    events = h.events;
    same = h.same;
    replayed = h.replayed;
  }

  set_restart_count-Mirrors :
      (app : Application) (count : ℤ) (u : Session Tables)
      → Mirrors u
      → Mirrors (set_restart_count W from_line to_lowercase app count u).1
  unfolding set_restart_count statement
  set_restart_count-Mirrors app count u h =
      let p = λ (a : Application). a.id == app.id in
      let f =
        λ (a : Application). (let b : Application = record a { restart_count = count } in b) in
      elim (Bool-cases (W.reaches u.statements)) [
        | inl e ↦ rw e (record {
          more = h.more;
          events = h.events;
          same = keys-update p f (λ a. refl) u.tables.applications ∙ h.same;
          replayed = shown-keep uuid p f (λ a. refl) (λ a. refl) u.tables.applications ∙ h.replayed;
        })
        | inr e ↦ rw e (counted-Mirrors u h)
      ]

  others :
      (k : Keys) (apps : List Application)
      → In k (map keys s.applications)
      → map keys apps ≡ map keys s.applications
      → All (λ b. (b.0 == k.0) ≡ str_eq b.1 k.1) (map keys apps)
  others k apps i q = subst (All (λ (b : Keys). (b.0 == k.0) ≡ str_eq b.1 k.1)) (sym q) (
      All-of_In (λ (b : Keys). (b.0 == k.0) ≡ str_eq b.1 k.1) (map keys s.applications)
        (λ b j.
          All-In (λ (c : Keys). (b.0 == c.0) ≡ str_eq b.1 c.1) (map keys s.applications) k
            (All-In
              (λ (a : Keys).
                All (λ (c : Keys). (a.0 == c.0) ≡ str_eq a.1 c.1) (map keys s.applications))
              (map keys s.applications) b keyed j)
            i))

  write_status-Mirrors :
      (app_uuid : Str) (app : Application) (status : Str) (u : Session Tables)
      → In (keys app) (map keys s.applications)
      → app.uuid ≡ app_uuid
      → Mirrors u
      → Mirrors (write_status W from_line to_lowercase app_uuid app status u)
  unfolding write_status announce set_status statement send_change modify
  write_status-Mirrors app_uuid app status u i q h = elim (Bool-cases (str_eq app.status status)) [
    | inl e ↦ rw e h
    | inr e ↦
        let p = λ (a : Application). a.id == app.id in
        let f = λ (a : Application). (let b : Application = record a { status = status } in b) in
        let event : StatusEvent = record { application = app_uuid; status = status } in
        elim (Bool-cases (W.reaches u.statements)) [
          | inl r ↦
              rw (e, r)
                (record {
                  more = h.more ++ event ∷ [];
                  events = rw h.events (append_assoc s.events h.more (event ∷ []));
                  same = keys-update p f (λ a. refl) u.tables.applications ∙ h.same;
                  replayed =
                      shown-set uuid status (keys app) u.tables.applications
                        (others (keys app) u.tables.applications i h.same)
                      ∙ ap
                          (λ (w : Str).
                            if str_eq uuid w
                            then map_option (λ _. status) (shown uuid u.tables.applications)
                            else shown uuid u.tables.applications)
                          q
                      ∙ ap
                          (λ (o : Option Str).
                            if str_eq uuid app_uuid then map_option (λ _. status) o else o)
                          h.replayed
                      ∙ sym (replay-append uuid h.more (event ∷ []) (shown uuid s.applications));
                })
          | inr r ↦ rw (e, r) (counted-Mirrors u h)
        ]
  ]

  reconcile_app-Mirrors :
      (conn : Str) (c : ManagedContainer) (app_uuid : Str) (app : Application) (u : Session Tables)
      → In (keys app) (map keys s.applications)
      → app.uuid ≡ app_uuid
      → Mirrors u
      → Mirrors (reconcile_app W from_line to_lowercase conn c app_uuid app u)
  unfolding reconcile_app inspect_restart_count new_status
  reconcile_app-Mirrors conn c app_uuid app u i q h =
      let v = exec-Mirrors conn (inspect_command c.name) u h in
      write_status-Mirrors app_uuid app _ _ i q (
        set_restart_count-Mirrors app _ _ (
          if_keeps Mirrors (crash_loops _ app.max_restart_count) _ _
            (exec-Mirrors conn (stop_command c.name) _ v) v))

  reconcile_named-Mirrors :
      (conn : Str) (c : ManagedContainer) (name : Option Str) (u : Session Tables)
      → Mirrors u
      → Mirrors (reconcile_named W from_line to_lowercase conn c name u)
  unfolding reconcile_found query
  reconcile_named-Mirrors conn c none u h = h
  reconcile_named-Mirrors conn c (some app_uuid) u h = elim (Bool-cases (W.reaches u.statements)) [
    | inr r ↦ rw r (counted-Mirrors u h)
    | inl r ↦
        elim (Option-cases
          (find (λ (a : Application). str_eq a.uuid app_uuid) u.tables.applications)) [
            | inl e ↦ rw (r, e) (counted-Mirrors u h)
            | inr (app, e) ↦
                let (i, q) = find-keys app_uuid u.tables.applications app e in
                rw (r, e)
                  (reconcile_app-Mirrors conn c app_uuid app (counted u)
                    (subst (In (keys app)) h.same i) q (counted-Mirrors u h))
          ]
  ]

  reconcile-Mirrors :
      (conn : Str) (cs : List ManagedContainer) (u : Session Tables)
      → Mirrors u
      → Mirrors (reconcile W from_line to_lowercase conn cs u)
  unfolding reconcile
  reconcile-Mirrors conn [] u h = h
  reconcile-Mirrors conn (c ∷ cs) u h =
      reconcile-Mirrors conn cs _ (reconcile_named-Mirrors conn c c.application_uuid u h)

  reply-Mirrors :
      (conn : Str) (reply : Reply) (u : Session Tables)
      → Mirrors u
      → Mirrors (reconcile_reply W from_line to_lowercase conn (reply, u))
  unfolding reconcile_reply
  reply-Mirrors conn (broken e) u h = h
  reply-Mirrors conn (output o) u h =
      reconcile-Mirrors conn (parse_containers from_line o.stdout) u h

  sync_found-Mirrors :
      (row : Option Server) (u : Session Tables)
      → Mirrors u
      → Mirrors (sync_found W from_line to_lowercase row u).1
  sync_found-Mirrors none u h = unfold lift in h
  sync_found-Mirrors (some server) u h =
      query_keeps Mirrors W (λ _. tt {0}) _ u (counted-Mirrors u h)
        (reply-Mirrors server.uuid _ _
          (exec-Mirrors server.uuid ps_command (counted u) (counted-Mirrors u h)))

  sync_servers-Mirrors :
      (servers : List Server) (u : Session Tables)
      → Mirrors u
      → Mirrors (sync_servers W from_line to_lowercase servers u).1
  unfolding sync_servers
  sync_servers-Mirrors [] u h = unfold lift in h
  sync_servers-Mirrors (server ∷ servers) u h = query_keeps Mirrors W _ _ u (counted-Mirrors u h) (
      bind_keeps Mirrors _ _ (counted u) (sync_found-Mirrors _ _ (counted-Mirrors u h))
        λ _ v k. sync_servers-Mirrors servers v k)

-- If no two applications share an id without the uuid or a uuid without the id, then whatever the
-- hosts reply and whichever statements fail, the events that a sweep adds, replayed in order on the
-- status of an application before it, give its status after it.
pub sync_all-replay :
    (W : World) (from_line : Str → Option PsLine) (to_lowercase : Str → Str) (uuid : Str)
    (t : Session Tables)
    → IsKeyed (map keys t.tables.applications)
    → (more : List StatusEvent) × ((sync_all W from_line to_lowercase t).1.tables.events
        ≡ t.tables.events ++ more)
      × (shown uuid (sync_all W from_line to_lowercase t).1.tables.applications
          ≡ replay uuid more (shown uuid t.tables.applications))
unfolding sync_all
sync_all-replay W from_line to_lowercase uuid t keyed =
    let P = Mirrors W from_line to_lowercase uuid t.tables keyed in
    let start : P t = record {
      more = [];
      events = sym (append-nil t.tables.events);
      same = refl;
      replayed = refl;
    } in
    let begun = counted-Mirrors W from_line to_lowercase uuid t.tables keyed t start in
    let h =
      query_keeps P W _ _ t begun
        (sync_servers-Mirrors W from_line to_lowercase uuid t.tables keyed _ (counted t) begun) in
    (h.more, h.events, h.replayed)
