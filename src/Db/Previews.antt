-- ===== src/Db/Previews.antt =====
-- crates/rustify-db/src/repos/previews.rs: the previews of an application's pull requests. Each
-- statement is one committed transaction at the time `now`; the columns of later features are left
-- out of a new row, as the INSERT leaves them to their defaults.
pub mod Rows
use rustify.Prelude.{
  ℕ, ◌+◌, Bool, not, ◌&&◌, ◌||◌, Option, none, some, List, [], ◌∷◌, ◌++◌, Str, codes, ◌==◌, any,
  count_if, filter, find, if◌then◌else◌,
}
use rustify.Prelude.Int.{ℤ, int_eq}
use rustify.Prelude.Keyed.{Keyed, update_where}

pub record ApplicationPreview : Type 0 where
  pub id : ℕ
  pub uuid : Str
  pub application_id : ℕ
  pub pull_request_id : ℤ
  pub pull_request_html_url : Option Str
  pub pull_request_issue_comment_id : Option ℤ
  pub fqdn : Option Str
  pub status : Str
  pub git_type : Option Str
  pub last_online_at : Option ℕ
  pub created_at : ℕ
  pub updated_at : ℕ

instance abbrev pub preview_keyed : Keyed ApplicationPreview
preview_keyed = record { key = λ p. p.id }

pub record Previews : Type 0 where
  pub rows : List ApplicationPreview
  pub next_id : ℕ

-- WHERE application_id = $1 AND pull_request_id = $2
abbrev pub is_for : ℕ → ℤ → ApplicationPreview → Bool
is_for app pr p = (p.application_id == app) && int_eq p.pull_request_id pr

abbrev pub coalesce : {A : Type 0} → Option A → Option A → Option A
coalesce none b = b
coalesce (some a) b = some a

-- DO UPDATE SET: a missing url or type keeps the stored one.
unfoldable pub refreshed : Option Str → Option Str → ℕ → ApplicationPreview → ApplicationPreview
refreshed html_url git_type now p = record p {
  pull_request_html_url = coalesce html_url p.pull_request_html_url;
  git_type = coalesce git_type p.git_type;
  updated_at = now;
}

unfoldable pub upsert : ℕ → ℤ → Option Str → Option Str → Str → ℕ → Previews → Previews
unfolding refreshed
upsert app pr html_url git_type uuid now t =
    let row : ApplicationPreview = record {
      id = t.next_id;
      uuid = uuid;
      application_id = app;
      pull_request_id = pr;
      pull_request_html_url = html_url;
      pull_request_issue_comment_id = none;
      fqdn = none;
      status = codes "exited";
      git_type = git_type;
      last_online_at = none;
      created_at = now;
      updated_at = now;
    } in
    if any (is_for app pr) t.rows
    then record t { rows = update_where (is_for app pr) (refreshed html_url git_type now) t.rows }
    else record { rows = t.rows ++ row ∷ []; next_id = t.next_id + 1 }

unfoldable pub get : ℕ → ℤ → Previews → Option ApplicationPreview
get app pr t = find (is_for app pr) t.rows

-- Rows stand in the order of their ids.
unfoldable pub list_by_application : ℕ → Previews → List ApplicationPreview
list_by_application app t = filter (λ p. p.application_id == app) t.rows

unfoldable pub set_fqdn : ℕ → Option Str → ℕ → Previews → Previews
set_fqdn id fqdn now t = record t {
  rows = update_where (λ p. p.id == id) (λ p. record p { fqdn = fqdn; updated_at = now }) t.rows;
}

unfoldable pub set_status : ℕ → Str → ℕ → Previews → Previews
set_status id status now t = record t {
  rows =
      update_where (λ p. p.id == id)
        (λ p. record p { status = status; last_online_at = some now; updated_at = now }) t.rows;
}

unfoldable pub set_comment_id : ℕ → Option ℤ → ℕ → Previews → Previews
set_comment_id id comment_id now t = record t {
  rows =
      update_where (λ p. p.id == id)
        (λ p. record p { pull_request_issue_comment_id = comment_id; updated_at = now }) t.rows;
}

unfoldable pub delete : ℕ → Previews → Bool × Previews
delete id t = (
  count_if (λ p. p.id == id) t.rows == 1,
  record t { rows = filter (λ p. not (p.id == id)) t.rows },
)
