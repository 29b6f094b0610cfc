-- ===== src/Prelude/Shell.antt =====
-- How a POSIX shell reads one word of a command line, and that a text in single quotes is read back.
use Prim.Native.Nat.{ℕ}
use mathlib.Core.Path.{◌≡◌, refl, sym, ◌∙◌, ap}
use mathlib.Core.Logic.{inl, inr}
use mathlib.Core.Bool.{Bool, false, ◌||◌}
use mathlib.Core.List.{[], ◌∷◌, ◌++◌}
use mathlib.Core.Option.{Option, none, some}
use native.Mathlib.Omega.{arith}
use rustify.Prelude.Tests.{◌==◌, if◌then◌else◌, Bool-cases, ==_iff}
use rustify.Prelude.Text.{Str, codes}
use rustify.Prelude.Chars.{replace_char}

-- Outside quotes, after a backslash, in single quotes and in double quotes (and there after a
-- backslash).
pub data Mode : Type 0 where
  bare escaped quoted doubled doubled_escaped : Mode

-- A blank, or an operator character, ends a word.
abbrev pub ends_word : ℕ → Bool
ends_word c =
    ((c == 32) || ((c == 9) || (c == 10)))
    || ((c == 59)
        || ((c == 38) || ((c == 124) || ((c == 60) || ((c == 62) || ((c == 40) || (c == 41)))))))

-- What a backslash escapes in double quotes.
abbrev pub is_special : ℕ → Bool
is_special c = (c == 92) || ((c == 34) || ((c == 96) || (c == 36)))

abbrev pub push : ℕ → Option (Str × Str) → Option (Str × Str)
push c none = none
push c (some w) = some (c ∷ w.0, w.1)

-- A word's first characters.
abbrev pub push_all : Str → Option (Str × Str) → Option (Str × Str)
push_all [] w = w
push_all (c ∷ s) w = push c (push_all s w)

-- What one character does: it ends the word, cannot be read here (an expansion), or adds some
-- characters and leads to a mode.
pub data Action : Type 0 where
  stop unread : Action
  add : Str → Mode → Action

abbrev pub advance : Mode → ℕ → Action
advance bare c =
    if c == 39
    then add [] quoted
    else if c == 34
    then add [] doubled
    else if c == 92
    then add [] escaped
    else if ends_word c
    then stop
    else if (c == 36) || (c == 96)
    then unread
    else add (c ∷ []) bare
advance escaped c = add (c ∷ []) bare
advance quoted c = if c == 39 then add [] bare else add (c ∷ []) quoted
advance doubled c =
    if c == 34
    then add [] bare
    else if c == 92
    then add [] doubled_escaped
    else if (c == 36) || (c == 96)
    then unread
    else add (c ∷ []) doubled
advance doubled_escaped c = if is_special c then add (c ∷ []) doubled else add (92 ∷ c ∷ []) doubled

-- The word, and what follows it.
unfoldable pub read_word : Mode → Str → Option (Str × Str)
read_word bare [] = some ([], [])
read_word escaped [] = none
read_word quoted [] = none
read_word doubled [] = none
read_word doubled_escaped [] = none
read_word m (c ∷ s) = elim (advance m c) [
  | stop ↦ some ([], c ∷ s)
  | unread ↦ none
  | add out m' ↦ push_all out (read_word m' s)
]

abbrev pub is_quote : ℕ → Bool
is_quote c = c == 39

-- Inside single quotes, the quotes written as '\'' are read back.
read_word-escaped :
    (s rest : Str)
    → read_word quoted (replace_char is_quote (codes "'\\''") s ++ 39 ∷ rest)
      ≡ push_all s (read_word bare rest)
unfolding read_word replace_char
read_word-escaped [] rest = refl
read_word-escaped (c ∷ s) rest = elim (Bool-cases (c == 39)) [
  | inl e ↦
      rw (read_word, replace_char, e, read_word-escaped s rest)
        (ap (λ n. push n (push_all s (read_word bare rest))) (sym ((==_iff c 39).0 e)))
  | inr e ↦ rw (read_word, replace_char, e, e, read_word-escaped s rest) refl
]

-- A text in single quotes is one word's first part, whatever it contains.
pub read_word-quoted :
    (s rest : Str)
    → read_word bare (39 ∷ (replace_char is_quote (codes "'\\''") s ++ 39 ∷ rest))
      ≡ push_all s (read_word bare rest)
unfolding read_word
read_word-quoted s rest = read_word-escaped s rest

-- Inside double quotes, what stands before each character that is special there.
unfoldable pub escape_special : Str → Str
escape_special [] = []
escape_special (c ∷ s) =
    let rest = escape_special s in if is_special c then 92 ∷ c ∷ rest else c ∷ rest

advance_ordinary : (c : ℕ) → is_special c ≡ false → advance doubled c ≡ add (c ∷ []) doubled
advance_ordinary c e = ground (arith, e)

read_ordinary :
    (c : ℕ) (s : Str)
    → is_special c ≡ false
    → read_word doubled (c ∷ s) ≡ push c (read_word doubled s)
unfolding read_word
read_ordinary c s e = rw (read_word, advance_ordinary c e) refl

read_word-doubled_escaped :
    (s rest : Str)
    → read_word doubled (escape_special s ++ 34 ∷ rest) ≡ push_all s (read_word bare rest)
unfolding read_word escape_special
read_word-doubled_escaped [] rest = refl
read_word-doubled_escaped (c ∷ s) rest = elim (Bool-cases (is_special c)) [
  | inl e ↦ rw (read_word, escape_special, e, e, read_word-doubled_escaped s rest) refl
  | inr e ↦
      rw (escape_special, e)
        (read_ordinary c (escape_special s ++ 34 ∷ rest) e
          ∙ ap (push c) (read_word-doubled_escaped s rest))
]

-- A text in double quotes with those escapes likewise.
pub read_word-doubled :
    (s rest : Str)
    → read_word bare (34 ∷ (escape_special s ++ 34 ∷ rest)) ≡ push_all s (read_word bare rest)
unfolding read_word
read_word-doubled s rest = read_word-doubled_escaped s rest
