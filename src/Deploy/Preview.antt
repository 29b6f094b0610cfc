-- ===== src/Deploy/Preview.antt =====
-- crates/rustify-deploy/src/preview.rs: the names and the address of a preview.
mod Tests
use rustify.Prelude.{
  ℕ, Bool, true, false, not, ◌||◌, Option, none, some, List, [], ◌∷◌, ◌++◌, Str, str_eq, codes,
  ◌==◌, ltb, if◌then◌else◌, map_option, unwrap_or, ◌>>=◌,
}
use rustify.Prelude.Chars.{trim, split, split_once}
use rustify.Prelude.Replace.{replace, rsplit_once}
use rustify.Prelude.Int.{ℤ, int_decimal, decimal, parse_u32}
use rustify.Core.Webhook.Repository.{split_once_str}

abbrev pub preview_image_tag : ℤ → Str → Str
preview_image_tag pull_request_id commit =
    codes "pr-" ++ (int_decimal pull_request_id ++ (codes "-" ++ commit))

abbrev pub preview_container_name : Str → ℤ → Str
preview_container_name app_uuid pull_request_id =
    app_uuid ++ (codes "-pr-" ++ int_decimal pull_request_id)

abbrev pub preview_network : Str → ℤ → Str
preview_network app_uuid pull_request_id = app_uuid ++ (codes "-" ++ int_decimal pull_request_id)

pub record UrlParts : Type 0 where
  pub scheme : Str
  pub host : Str
  pub port : Option ℕ
  pub path : Option Str

abbrev parse_u16 : Str → Option ℕ
parse_u16 s = parse_u32 s >>= λ n. if ltb n 65536 then some n else none

abbrev split_authority : Str → Str × Option Str
split_authority rest = elim (split_once (λ c. c == 47) rest) [
  | some q ↦ (q.0, some (47 ∷ q.1))
  | none ↦ (rest, none)
]

abbrev split_port : Str → Str × Option ℕ
split_port authority = elim (rsplit_once 58 authority) [
  | some q ↦ (q.0, parse_u16 q.1)
  | none ↦ (authority, none)
]

unfoldable pub parse_url : Str → UrlParts
unfolding split_once_str split_once rsplit_once parse_u32
parse_url url =
    let (scheme, rest) = unwrap_or (split_once_str (codes "://") url) (codes "http", url) in
    let (authority, path) = split_authority rest in
    let (host, port) = split_port authority in
    record { scheme = scheme; host = host; port = port; path = path }

abbrev first_piece : List Str → Str → Str
first_piece [] s = s
first_piece (p ∷ ps) s = p

abbrev shown_path : Option Str → Str
shown_path none = []
shown_path (some p) = if str_eq p (codes "/") || str_eq p [] then [] else p

abbrev shown_port : Option ℕ → Str
shown_port none = []
shown_port (some p) = 58 ∷ decimal p

unfoldable pub expand_template : UrlParts → Str → ℤ → Str → Str
unfolding replace int_decimal
expand_template parts template pull_request_id random =
    replace (codes "{{pr_id}}") (int_decimal pull_request_id)
      (replace (codes "{{domain}}") parts.host (replace (codes "{{random}}") random template))

unfoldable pub expand_preview_fqdn : Option Str → Str → ℤ → Str → Option Str
unfolding trim str_eq split parse_url expand_template decimal
expand_preview_fqdn none template pull_request_id random = none
expand_preview_fqdn (some app_fqdn) template pull_request_id random =
    let raw = trim app_fqdn in
    let parts = parse_url (trim (first_piece (split 44 raw) raw)) in
    let expanded = expand_template parts template pull_request_id random in
    if str_eq raw []
    then none
    else some (
        parts.scheme
        ++ (codes "://" ++ (expanded ++ (shown_port parts.port ++ shown_path parts.path))))
