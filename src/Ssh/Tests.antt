-- ===== src/Ssh/Tests.antt =====
-- Runs of the retries and of the command assembly.
use rustify.Prelude.{
  Str, ℕ, zero, suc, ◌≤◌, false, none, some, [], ◌∷◌, ◌++◌, codes, contains, ◌≡◌, refl,
}
use rustify.Prelude.Int.{pos}
use rustify.Prelude.Chars.{split}
use rustify.Ssh.Retry.{ExecResult, ok, err, connection, run_with_retry}
use rustify.Ssh.Retry.Budget.{Ends, run_with_retry-Ends}
use rustify.Ssh.Command.{
  ssh_invocation, build_ssh_command, ServerConn, sh_quote, user_at_host, delimiter, remove_from,
  remove,
}
use rustify.Ssh.Command.Cut.{Cut}
use rustify.Ssh.Command.Heredoc.{here_document, build_ssh_command-here_document}

abbrev outcome : ℕ → ExecResult
outcome zero = err connection
outcome (suc n) = ok (record { exit_code = pos 0; stdout = codes "up"; stderr = [] })

second_call :
    run_with_retry outcome 9 ≡ some (record { result = outcome 1; calls = 2; slept = 2 ∷ [] })
unfolding run_with_retry
second_call = refl

run_with_retry-Ends_example : (k : ℕ) × (k ≤ 3) × Ends outcome k (run_with_retry outcome 4)
run_with_retry-Ends_example = run_with_retry-Ends outcome 0

abbrev conn : ServerConn
conn = record {
  uuid = codes "s";
  host = codes "h o'st";
  port = codes "22";
  user = codes "ro$ot";
  key_path = codes "/k";
  connection_timeout_secs = codes "10";
  proxy_command = none;
}

quoted : user_at_host conn ≡ codes "'ro$ot'@'h o'\\''st'"
unfolding user_at_host sh_quote
quoted = refl

-- A script that contains the delimiter.
abbrev script : Str
script = codes "ls\nRUSTIFY_EOF_n\nid"

absent : contains (delimiter (codes "n")) (remove (delimiter (codes "n")) script) ≡ false
unfolding contains delimiter remove_from
absent = refl

build_ssh_command-here_document_example :
    (kept : Str) × (rest : Str) × Cut (delimiter (codes "n")) script kept
    × (build_ssh_command conn script none none (codes "n")
        ≡ ssh_invocation conn none none ++ (codes " 'bash -se' << " ++ rest))
    × (here_document rest ≡ some (split 10 kept))
build_ssh_command-here_document_example =
    build_ssh_command-here_document conn script none none (codes "n") refl absent

stripped : split 10 (remove (delimiter (codes "n")) script) ≡ codes "ls" ∷ [] ∷ codes "id" ∷ []
unfolding split delimiter remove_from
stripped = refl

-- A nonce with a blank makes another word than the delimiter, which no line of the script is.
blank_nonce : here_document (codes "\\E_a b\nls\nE_a b") ≡ none
unfolding here_document
blank_nonce = refl

-- Removing a delimiter can put another together.
reformed :
    remove (delimiter (codes "n")) (codes "RUSTIFY_RUSTIFY_EOF_nEOF_n") ≡ delimiter (codes "n")
unfolding delimiter remove_from
reformed = refl
