-- ===== src/Docker.antt =====
-- crates/rustify-docker/src/inspect.rs: the containers in the output of `docker ps`. `from_line` is
-- serde_json's reading of a line.
use rustify.Prelude.{
  Bool, false, not, Option, none, some, List, [], ◌∷◌, map, Str, str_eq, codes, ◌==◌, if◌then◌else◌,
  filter,
}
use rustify.Prelude.Chars.{trim, split, split_once}

pub record PsLine : Type 0 where
  pub id : Str
  pub names : Str
  pub image : Str
  pub state : Str
  pub labels : Str

pub record ManagedContainer : Type 0 where
  pub id : Str
  pub name : Str
  pub image : Str
  pub state : Str
  pub application_id : Option Str
  pub application_uuid : Option Str
  pub deployment_uuid : Option Str

abbrev find_label : Str → List (Option (Str × Str)) → Option Str
find_label key [] = none
find_label key (none ∷ pairs) = find_label key pairs
find_label key (some (k, v) ∷ pairs) =
    let rest = find_label key pairs in if str_eq k key then some v else rest

unfoldable pub label_value : Str → Str → Option Str
unfolding str_eq split split_once
label_value labels key = find_label key (map (split_once (λ c. c == 61)) (split 44 labels))

abbrev is_managed : Option Str → Bool
is_managed none = false
is_managed (some v) = str_eq v (codes "true")

abbrev pub managed : PsLine → ManagedContainer
managed line = record {
  id = line.id;
  name = line.names;
  image = line.image;
  state = line.state;
  application_id = label_value line.labels (codes "rustify.applicationId");
  application_uuid = label_value line.labels (codes "rustify.applicationUuid");
  deployment_uuid = label_value line.labels (codes "rustify.deploymentId");
}

abbrev keep_some : List (Option PsLine) → List PsLine
keep_some [] = []
keep_some (none ∷ ls) = keep_some ls
keep_some (some l ∷ ls) = l ∷ keep_some ls

unfoldable pub parse_containers : (Str → Option PsLine) → Str → List ManagedContainer
unfolding label_value trim split str_eq
parse_containers from_line ps_json = map managed (
    filter (λ l. is_managed (label_value l.labels (codes "rustify.managed")))
      (keep_some (map from_line (filter (λ l. not (str_eq l [])) (map trim (split 10 ps_json))))))
