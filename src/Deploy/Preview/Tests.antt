-- ===== src/Deploy/Preview/Tests.antt =====
-- Names and addresses of previews.
use rustify.Prelude.{Bool, true, Option, none, some, Str, codes, contains, ◌≡◌, refl}
use rustify.Prelude.Int.{pos}
use rustify.Deploy.Preview.{preview_container_name, preview_image_tag, expand_preview_fqdn}

image_tag : preview_image_tag (pos 42) (codes "abc123") ≡ codes "pr-42-abc123"
unfolding rustify.Prelude.Int.int_decimal
image_tag = refl

default_template :
    expand_preview_fqdn
      (some (codes "https://app.example.com:8080/x , y"))
      (codes "{{pr_id}}.{{domain}}")
      (pos 7)
      (codes "r")
    ≡ some (codes "https://7.app.example.com:8080/x")
unfolding expand_preview_fqdn
default_template = refl

-- The name of one preview's container is part of another's.
name_in_name :
    contains
      (preview_container_name (codes "a") (pos 1))
      (preview_container_name (codes "a") (pos 12))
    ≡ true
unfolding rustify.Prelude.Int.int_decimal contains
name_in_name = refl
