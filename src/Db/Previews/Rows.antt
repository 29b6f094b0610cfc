-- ===== src/Db/Previews/Rows.antt =====
-- What an `upsert` leaves for its pull request, and that a pull request has one row.
use rustify.Prelude.{
  ℕ, ◌≤◌, Bool, true, false, Option, none, some, List, [], ◌∷◌, ◌++◌, Str, codes, ==_iff, ◌≡◌, refl,
  subst, ◌∙◌, arith, Bool-cases, inl, inr, any, find, count_if, count_if-append, count_if-any,
  map_option,
}
use rustify.Prelude.Int.{ℤ, int_eq_iff}
use rustify.Prelude.Keyed.{update_where}
use rustify.Db.Previews.{ApplicationPreview, Previews, is_for, coalesce, refreshed, upsert, get}

-- UNIQUE (application_id, pull_request_id)
abbrev pub IsSingle : Previews → Type 0
IsSingle t = (app : ℕ) (pr : ℤ) → count_if (is_for app pr) t.rows ≤ 1

count-update :
    (q p : ApplicationPreview → Bool) (f : ApplicationPreview → ApplicationPreview)
    (same : (d : ApplicationPreview) → q (f d) ≡ q d) (rows : List ApplicationPreview)
    → count_if q (update_where p f rows) ≡ count_if q rows
count-update q p f same [] = refl
count-update q p f same (d ∷ ds) = ground (arith, same d, count-update q p f same ds)

find-update :
    (p : ApplicationPreview → Bool) (f : ApplicationPreview → ApplicationPreview)
    (same : (d : ApplicationPreview) → p (f d) ≡ p d) (rows : List ApplicationPreview)
    → find p (update_where p f rows) ≡ map_option f (find p rows)
find-update p f same [] = refl
find-update p f same (d ∷ ds) = ground (arith, same d, find-update p f same ds)

find-append :
    (p : ApplicationPreview → Bool) (rows : List ApplicationPreview) (d : ApplicationPreview)
    → any p rows ≡ false
    → p d ≡ true
    → (find p (rows ++ d ∷ []) ≡ some d) × (find p rows ≡ none)
find-append p [] d h t = (rw t refl, refl)
find-append p (e ∷ es) d h t = ground (arith, find-append p es d)

find_present :
    (p : ApplicationPreview → Bool) (rows : List ApplicationPreview)
    → any p rows ≡ true
    → (d : ApplicationPreview) × (find p rows ≡ some d)
find_present p [] h = cc
find_present p (e ∷ es) h = elim (Bool-cases (p e)) [
  | inl t ↦ rw t (e, refl)
  | inr f ↦ rw f (find_present p es (ground (arith, f)))
]

is_for_sound :
    (app : ℕ) (pr : ℤ) (p : ApplicationPreview)
    → is_for app pr p ≡ true
    → (p.application_id ≡ app) × (p.pull_request_id ≡ pr)
is_for_sound app pr p h =
    ground (arith, ==_iff p.application_id app, int_eq_iff p.pull_request_id pr)

is_for_self :
    (app : ℕ) (pr : ℤ) (p : ApplicationPreview)
    → p.application_id ≡ app
    → p.pull_request_id ≡ pr
    → is_for app pr p ≡ true
is_for_self app pr p a e =
    ground (arith, ==_iff p.application_id app, int_eq_iff p.pull_request_id pr)

-- A row for a pull request without one leaves one for each.
single_fresh :
    (d : ApplicationPreview) (rows : List ApplicationPreview) (app : ℕ) (pr : ℤ)
    → any (is_for d.application_id d.pull_request_id) rows ≡ false
    → count_if (is_for app pr) rows ≤ 1
    → count_if (is_for app pr) (rows ++ d ∷ []) ≤ 1
single_fresh d rows app pr e h = elim (Bool-cases (is_for app pr d)) [
  | inr f ↦ rw (count_if-append (is_for app pr) rows (d ∷ [])) (ground (arith, f))
  | inl f ↦
      let (a, n) = is_for_sound app pr d f in
      let z : count_if (is_for app pr) rows ≡ 0 = count_if-any (is_for app pr) rows (
        subst (λ (n : ℤ). any (is_for app n) rows ≡ false) n
          (subst (λ (a : ℕ). any (is_for a d.pull_request_id) rows ≡ false) a e)) in
      rw (count_if-append (is_for app pr) rows (d ∷ [])) (ground (arith, z))
]

-- The row before, if any.
abbrev pub Kept : Option Str → Option Str → Option ApplicationPreview → ApplicationPreview → Type 0
Kept html_url git_type none p =
    (p.fqdn ≡ none)
    × (p.status ≡ codes "exited")
    × (p.pull_request_issue_comment_id ≡ none)
    × (p.pull_request_html_url ≡ html_url)
    × (p.git_type ≡ git_type)
Kept html_url git_type (some old) p =
    (p.id ≡ old.id)
    × (p.fqdn ≡ old.fqdn)
    × (p.status ≡ old.status)
    × (p.pull_request_issue_comment_id ≡ old.pull_request_issue_comment_id)
    × (p.pull_request_html_url ≡ coalesce html_url old.pull_request_html_url)
    × (p.git_type ≡ coalesce git_type old.git_type)

-- A pull request has one row at most, before an `upsert` and after it. The row is then found, keeps
-- what was generated for it, and takes the new address and host where these are given.
pub upsert-Kept :
    (app : ℕ) (pr : ℤ) (html_url git_type : Option Str) (uuid : Str) (now : ℕ) (t : Previews)
    → IsSingle t
    → IsSingle (upsert app pr html_url git_type uuid now t)
      × ((p : ApplicationPreview) × (get app pr (upsert app pr html_url git_type uuid now t)
            ≡ some p)
          × Kept html_url git_type (get app pr t) p)
unfolding upsert get refreshed
upsert-Kept app pr html_url git_type uuid now t s = elim (Bool-cases (any (is_for app pr) t.rows)) [
  | inl e ↦
      let (old, f) = find_present (is_for app pr) t.rows e in
      rw e (
        λ a n.
            rw
              (count-update (is_for a n) (is_for app pr) (refreshed html_url git_type now)
                (λ d. refl) t.rows)
              (s a n),
        rw f (
          refreshed html_url git_type now old,
          find-update (is_for app pr) (refreshed html_url git_type now) (λ d. refl) t.rows
              ∙ rw f refl,
          (refl, refl, refl, refl, refl, refl),
        ),
      )
  | inr e ↦ rw e (
      let d : ApplicationPreview = record {
        id = t.next_id;
        uuid = uuid;
        application_id = app;
        pull_request_id = pr;
        pull_request_html_url = html_url;
        pull_request_issue_comment_id = none;
        fqdn = none;
        status = codes "exited";
        git_type = git_type;
        last_online_at = none;
        created_at = now;
        updated_at = now;
      } in
      let (new, old) = find-append (is_for app pr) t.rows d e (is_for_self app pr d refl refl) in
      (λ a n. single_fresh d t.rows a n e (s a n), rw old (d, new, (refl, refl, refl, refl, refl))))
]
