-- ===== src/Deploy/Host.antt =====
-- What the periodic jobs of crates/rustify-deploy share: the database, a statement of which may
-- fail, the executor of scripts on a server, and the clock. `S` are the tables.
pub mod Keeps
use rustify.Prelude.{
  ℕ, ◌+◌, Bool, Option, none, some, List, [], ◌∷◌, ◌++◌, Str, if◌then◌else◌, length,
}
use rustify.Prelude.Int.{ℤ}

-- crates/rustify-core/src/exec.rs
pub record ExecOutput : Type 0 where
  pub exit_code : ℤ
  pub stdout : Str
  pub stderr : Str

-- The executor's answer, or the text of its error.
pub data Reply : Type 0 where
  output : ExecOutput → Reply
  broken : Str → Reply

-- Whether the n-th statement reaches the database, the time at which it or a reading of the clock
-- is, the identifier drawn for it, the answer to the n-th script, and the text of an error.
pub record World : Type 0 where
  pub reaches : ℕ → Bool
  pub now : ℕ → ℕ
  pub uuid : ℕ → Str
  pub reply : ℕ → Reply
  pub error_text : Str

-- `trace` are the servers and scripts so far, `sleeps` the waits in seconds.
pub record Session (S : Type 0) : Type 0 where
  pub statements : ℕ
  pub trace : List (Str × Str)
  pub sleeps : List ℕ
  pub tables : S

-- A step that fails answers `none`.
abbrev pub Step : Type 0 → Type 0 → Type 0
Step S A = Session S → Option A × Session S

unfoldable pub continue :
    {S A B : Type 0} → (A → Step S B) → Option A × Session S → Option B × Session S
continue f (none, t) = (none, t)
continue f (some a, t) = f a t

infixl 5 ◌>>=◌
unfoldable pub ◌>>=◌ : {S A B : Type 0} → Step S A → (A → Step S B) → Step S B
unfolding continue
(m >>= f) t = continue f (m t)

-- `?` and `ok_or` on a value at hand.
unfoldable pub lift : {S A : Type 0} → Option A → Step S A
lift a t = (a, t)

abbrev pub counted : {S : Type 0} → Session S → Session S
counted t = record t { statements = t.statements + 1 }

module _ (W : World) {S : Type 0} where
  open W use {reaches, now, uuid, reply}

  -- A SELECT.
  unfoldable pub query : {A : Type 0} → (S → A) → Step S A
  query f t = (if reaches t.statements then some (f t.tables) else none, counted t)

  -- A statement that writes, with its time and the identifier that was drawn for it.
  unfoldable pub statement : {A : Type 0} → (Str → ℕ → S → A × S) → Step S A
  statement f t =
      let n = t.statements in
      let (a, tables) = f (uuid n) (now n) t.tables in
      if reaches n then (some a, record (counted t) { tables = tables }) else (none, counted t)

  -- A reading of the process's clock.
  unfoldable pub utc_now : Session S → ℕ × Session S
  utc_now t = (now t.statements, counted t)

  unfoldable pub exec : Str → Str → Session S → Reply × Session S
  exec server script t =
      (reply (length t.trace), record t { trace = t.trace ++ (server, script) ∷ [] })

  unfoldable pub sleep : ℕ → Session S → Session S
  sleep secs t = record t { sleeps = t.sleeps ++ secs ∷ [] }

  -- A change that does not touch the database, such as an event.
  unfoldable pub modify : (S → S) → Session S → Session S
  modify f t = record t { tables = f t.tables }
