-- ===== src/Deploy/Envfile/Reading.antt =====
-- What bash makes of the file of the build's environment.
use rustify.Prelude.{[], ◌∷◌, ◌++◌, Str, some, ◌≡◌, refl, ap, ◌∙◌, append_assoc, append-nil}
use rustify.Prelude.Shell.{bare, read_word, read_word-doubled, push_all, escape_special}
use rustify.Deploy.Envfile.{bash_double_quote}

push_all-some : (s word rest : Str) → push_all s (some (word, rest)) ≡ some (s ++ word, rest)
push_all-some [] word rest = refl
push_all-some (c ∷ s) word rest = rw (push_all-some s word rest) refl

-- Whatever a value contains, the shell reads its quoted form, before the end of the line, as that value.
pub read_word-bash_double_quote :
    (value rest : Str)
    → read_word bare (bash_double_quote value ++ 10 ∷ rest) ≡ some (value, 10 ∷ rest)
unfolding bash_double_quote read_word
read_word-bash_double_quote value rest =
    ap (λ t. read_word bare (34 ∷ t)) (append_assoc (escape_special value) (34 ∷ []) (10 ∷ rest))
    ∙ read_word-doubled value (10 ∷ rest)
    ∙ push_all-some value [] (10 ∷ rest)
    ∙ ap (λ v. some (v, 10 ∷ rest)) (append-nil value)
