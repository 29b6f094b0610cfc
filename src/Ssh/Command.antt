-- ===== src/Ssh/Command.antt =====
-- crates/rustify-ssh/src/command.rs: the shell commands that reach a server. Numbers are given as
-- their decimal text, and paths as text.
pub mod Quoting
pub mod Cut
pub mod Heredoc
use rustify.Prelude.{
  ℕ, Bool, true, false, not, ◌&&◌, Option, none, some, List, [], ◌∷◌, ◌++◌, Str, str_eq, codes,
  starts_with, if◌then◌else◌, ltb, drop, length, suc, zero,
}
use rustify.Prelude.Chars.{replace_char}
use rustify.Prelude.Shell.{is_quote}

-- crates/rustify-core/src/exec.rs
pub record ServerConn : Type 0 where
  pub uuid : Str
  pub host : Str
  pub port : Str
  pub user : Str
  pub key_path : Str
  pub connection_timeout_secs : Str
  pub proxy_command : Option Str

abbrev pub mux_persist_secs : Str
mux_persist_secs = codes "3600"

unfoldable pub sh_quote : Str → Str
unfolding replace_char
sh_quote s = 39 ∷ (replace_char is_quote (codes "'\\''") s ++ 39 ∷ [])

unfoldable pub proxy_command_opt : ServerConn → Str
unfolding sh_quote str_eq
proxy_command_opt conn = elim conn.proxy_command [
  | some cmd ↦ if str_eq cmd [] then [] else codes " -o ProxyCommand=" ++ sh_quote cmd
  | none ↦ []
]

unfoldable pub user_at_host : ServerConn → Str
user_at_host conn = sh_quote conn.user ++ codes "@" ++ sh_quote conn.host

unfoldable pub common_options : ServerConn → Bool → Str
unfolding proxy_command_opt
common_options conn is_scp =
    codes "-i "
    ++ conn.key_path
    ++ codes
        " -o StrictHostKeyChecking=no -o UserKnownHostsFile=/dev/null -o PasswordAuthentication=no -o ConnectTimeout="
    ++ conn.connection_timeout_secs
    ++ codes " -o ServerAliveInterval=20 -o RequestTTY=no -o LogLevel=ERROR"
    ++ proxy_command_opt conn
    ++ codes " "
    ++ (if is_scp then codes "-P" else codes "-p")
    ++ codes " "
    ++ conn.port

unfoldable pub mux_options : Str → Str
mux_options socket =
    codes "-o ControlMaster=auto -o ControlPath="
    ++ socket
    ++ codes " -o ControlPersist="
    ++ mux_persist_secs
    ++ codes " "

unfoldable pub delimiter : Str → Str
delimiter nonce = codes "RUSTIFY_EOF_" ++ nonce

-- `s.replace(pattern, "")`: the matches, from the left and without overlap; `skip` characters of a
-- match are still to be passed over. The pattern is not empty.
unfoldable pub remove_from : Str → ℕ → Str → Str
unfolding starts_with
remove_from p skip [] = []
remove_from p (suc skip) (c ∷ s) = remove_from p skip s
remove_from p zero (c ∷ s) = elim (starts_with p (c ∷ s)) [
  | true ↦ remove_from p (length (drop 1 p)) s
  | false ↦ c ∷ remove_from p zero s
]

abbrev pub remove : Str → Str → Str
remove p = remove_from p 0

abbrev socket_options : Option Str → Str
socket_options none = []
socket_options (some socket) = mux_options socket

-- `timeout` is the decimal text of a positive number of seconds, none for 0.
unfoldable pub ssh_invocation : ServerConn → Option Str → Option Str → Str
unfolding mux_options common_options user_at_host
ssh_invocation conn timeout mux_socket =
    (elim timeout [ none ↦ codes "ssh " | some n ↦ codes "timeout " ++ n ++ codes " ssh " ])
    ++ socket_options mux_socket
    ++ common_options conn false
    ++ codes " "
    ++ user_at_host conn

unfoldable pub build_ssh_command : ServerConn → Str → Option Str → Option Str → Str → Str
unfolding ssh_invocation delimiter remove_from
build_ssh_command conn script timeout mux_socket nonce =
    let delim = delimiter nonce in
    ssh_invocation conn timeout mux_socket
    ++ (codes " 'bash -se' << \\"
        ++ delim
        ++ codes "\n"
        ++ remove delim script
        ++ codes "\n"
        ++ delim)

unfoldable pub build_scp_command : ServerConn → Str → Str → Str → Option Str → Str
unfolding mux_options common_options user_at_host sh_quote
build_scp_command conn local remote timeout mux_socket =
    codes "timeout "
    ++ timeout
    ++ codes " scp "
    ++ socket_options mux_socket
    ++ common_options conn true
    ++ codes " "
    ++ sh_quote local
    ++ codes " "
    ++ user_at_host conn
    ++ codes ":"
    ++ sh_quote remote
