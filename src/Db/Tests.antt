-- ===== src/Db/Tests.antt =====
-- A second event for a pull request that has a preview.
use rustify.Prelude.{none, some, [], ◌∷◌, codes, ◌≡◌, arith}
use rustify.Prelude.Int.{pos}
use rustify.Db.Previews.{ApplicationPreview, Previews, upsert, get}
use rustify.Db.Previews.Rows.{IsSingle, Kept, upsert-Kept}

abbrev preview : ApplicationPreview
preview = record {
  id = 1;
  uuid = codes "u";
  application_id = 7;
  pull_request_id = pos 3;
  pull_request_html_url = some (codes "old");
  pull_request_issue_comment_id = none;
  fqdn = some (codes "pr-3.host");
  status = codes "running";
  git_type = some (codes "github");
  last_online_at = none;
  created_at = 0;
  updated_at = 0;
}

abbrev table : Previews
table = record { rows = preview ∷ []; next_id = 2 }

table-IsSingle : IsSingle table
table-IsSingle app pr = ground arith

upsert-Kept_example :
    IsSingle (upsert 7 (pos 3) none none (codes "v") 5 table)
    × ((p : ApplicationPreview) × (get 7 (pos 3) (upsert 7 (pos 3) none none (codes "v") 5 table)
          ≡ some p)
        × Kept none none (get 7 (pos 3) table) p)
upsert-Kept_example = upsert-Kept 7 (pos 3) none none (codes "v") 5 table table-IsSingle
