-- ===== src/Ssh/Command/Quoting.antt =====
-- What the remote's address is for the shell that runs the command.
use rustify.Prelude.{
  ◌≡◌, refl, ap, sym, ◌∙◌, some, [], ◌∷◌, ◌++◌, Str, codes, append_assoc, append-nil,
}
use rustify.Prelude.Chars.{replace_char}
use rustify.Prelude.Shell.{is_quote, bare, read_word, read_word-quoted, push, push_all}
use rustify.Ssh.Command.{ServerConn, sh_quote, user_at_host}

-- A quoted text is the first part of a word, whatever it contains.
pub read_word-sh_quote :
    (s rest : Str) → read_word bare (sh_quote s ++ rest) ≡ push_all s (read_word bare rest)
unfolding sh_quote
read_word-sh_quote s rest =
    ap (λ t. read_word bare (39 ∷ t))
      (append_assoc (replace_char is_quote (codes "'\\''") s) (39 ∷ []) rest)
    ∙ read_word-quoted s rest

push_all-some : (s word rest : Str) → push_all s (some (word, rest)) ≡ some (s ++ word, rest)
push_all-some [] word rest = refl
push_all-some (c ∷ s) word rest = rw (push_all-some s word rest) refl

-- Before a blank, the address is one word of the command line, and it is the user, an at sign and the
-- host, whatever characters these contain.
pub read_word-user_at_host :
    (conn : ServerConn) (rest : Str)
    → read_word bare (user_at_host conn ++ 32 ∷ rest)
      ≡ some (conn.user ++ codes "@" ++ conn.host, 32 ∷ rest)
unfolding user_at_host read_word
read_word-user_at_host conn rest =
    ap (read_word bare) (
      append_assoc (sh_quote conn.user ++ codes "@") (sh_quote conn.host) (32 ∷ rest)
      ∙ append_assoc (sh_quote conn.user) (codes "@") (sh_quote conn.host ++ 32 ∷ rest))
    ∙ read_word-sh_quote conn.user (64 ∷ (sh_quote conn.host ++ 32 ∷ rest))
    ∙ ap (λ w. push_all conn.user (push 64 w))
        (read_word-sh_quote conn.host (32 ∷ rest) ∙ push_all-some conn.host [] (32 ∷ rest))
    ∙ push_all-some conn.user (64 ∷ (conn.host ++ [])) (32 ∷ rest)
    ∙ ap (λ h. some (h, 32 ∷ rest))
        (ap (λ h. conn.user ++ 64 ∷ h) (append-nil conn.host)
          ∙ sym (append_assoc conn.user (codes "@") conn.host))
