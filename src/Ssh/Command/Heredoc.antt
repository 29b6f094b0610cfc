-- ===== src/Ssh/Command/Heredoc.antt =====
-- What the remote shell reads as the script.
use rustify.Prelude.{
  codes, append_assoc, ℕ, Bool, true, false, ◌||◌, ◌≡◌, refl, ap, sym, subst, ◌∙◌, Option, none,
  some, map_option, List, [], ◌∷◌, ◌++◌, Str, str_eq, str_eq_sound, str_eq_self, starts_with,
  contains, any, All, not, arith, inl, inr, Bool-cases, ◌==◌, if◌then◌else◌,
}
use rustify.Prelude.Chars.{split, is_alphanumeric}
use rustify.Prelude.Shell.{bare, add, advance, read_word}
use rustify.Ssh.Command.Cut.{Cut, remove-Cut}
use rustify.Ssh.Command.{ServerConn, ssh_invocation, build_ssh_command, delimiter, remove}

-- A here-document: the lines before the first that is the delimiter.
unfoldable pub read_heredoc : Str → List Str → Option (List Str)
read_heredoc d [] = none
read_heredoc d (l ∷ ls) =
    let rest = read_heredoc d ls in
    if str_eq l d then some [] else map_option (λ more. l ∷ more) rest

or_false : (a b : Bool) → (a || b) ≡ false → (a ≡ false) × (b ≡ false)
or_false a b h = ground arith

apart : {b : Bool} → b ≡ true → b ≡ false → ⊥
apart {b = b} t f = ground arith

==_self : (n : ℕ) → (n == n) ≡ true
==_self n = ground arith

split_nonempty : (n : ℕ) (s : Str) → (l : Str) × (ls : List Str) × (split n s ≡ l ∷ ls)
unfolding split
split_nonempty n [] = ([], [], refl)
split_nonempty n (c ∷ s) =
    let (l, ls, e) = split_nonempty n s in
    elim (Bool-cases (c == n)) [
      | inl t ↦ ([], split n s, rw (split, t) refl)
      | inr t ↦ (c ∷ l, ls, rw (split, t, e) refl)
    ]

split-append : (n : ℕ) (s t : Str) → split n (s ++ n ∷ t) ≡ split n s ++ split n t
unfolding split
split-append n [] t = rw (split, ==_self n) refl
split-append n (c ∷ s) t =
    let (l, ls, e) = split_nonempty n s in
    elim (Bool-cases (c == n)) [
      | inl q ↦ rw (split, q, split-append n s t) refl
      | inr q ↦ rw (split, q, split-append n s t, e) refl
    ]

split_line : (n : ℕ) (s : Str) → any (λ c. c == n) s ≡ false → split n s ≡ s ∷ []
unfolding split
split_line n [] h = refl
split_line n (c ∷ s) h =
    rw
      (
        split,
        (or_false (c == n) (any (λ d. d == n) s) h).0,
        split_line n s (or_false (c == n) (any (λ d. d == n) s) h).1,
      )
      refl

split_at : (n c : ℕ) (s : Str) → (c == n) ≡ true → split n (c ∷ s) ≡ [] ∷ split n s
unfolding split
split_at n c s t = rw (split, t) refl

split_on :
    (n c : ℕ) (s l : Str) (ls : List Str)
    → (c == n) ≡ false
    → split n s ≡ l ∷ ls
    → split n (c ∷ s) ≡ (c ∷ l) ∷ ls
unfolding split
split_on n c s l ls t e = rw (split, t, e) refl

abbrev first_of : List Str → Str
first_of [] = []
first_of (l ∷ ls) = l

-- A line is a part of the text.
starts_first : (n : ℕ) (s l : Str) (ls : List Str) → split n s ≡ l ∷ ls → starts_with l s ≡ true
unfolding split starts_with
starts_first n [] l ls h = subst (λ x. starts_with x [] ≡ true) (ap first_of h) refl
starts_first n (c ∷ s) l ls h =
    let (k, ks, e) = split_nonempty n s in
    elim (Bool-cases (c == n)) [
      | inl t ↦
          subst (λ x. starts_with x (c ∷ s) ≡ true) (ap first_of (sym (split_at n c s t) ∙ h)) refl
      | inr t ↦
          subst (λ x. starts_with x (c ∷ s) ≡ true)
            (ap first_of (sym (split_on n c s k ks t e) ∙ h))
            (rw (starts_with, ==_self c) (starts_first n s k ks e))
    ]

contains_start : (d s : Str) → starts_with d s ≡ true → contains d s ≡ true
unfolding contains
contains_start d [] h = h
contains_start d (c ∷ s) h = rw h refl

-- No line is the delimiter.
Differs : Str → List Str → Type 0
Differs d = All (λ l. str_eq l d ≡ false)

first_differs : (d s l : Str) → starts_with l s ≡ true → contains d s ≡ false → str_eq l d ≡ false
first_differs d s l t h = elim (Bool-cases (str_eq l d)) [
  | inl e ↦
      absurd
        (apart (contains_start d s (subst (λ x. starts_with x s ≡ true) (str_eq_sound l d e) t)) h)
  | inr e ↦ e
]

nil_differs : (d s : Str) → contains d s ≡ false → str_eq [] d ≡ false
unfolding starts_with
nil_differs d s h = first_differs d s [] refl h

lines-Differs : (n : ℕ) (d s : Str) → contains d s ≡ false → Differs d (split n s)
unfolding split contains Differs
lines-Differs n d [] h = (nil_differs d [] h, tt)
lines-Differs n d (c ∷ s) h =
    let (k, ks, e) = split_nonempty n s in
    let ih = lines-Differs n d s (or_false (starts_with d (c ∷ s)) (contains d s) h).1 in
    elim (Bool-cases (c == n)) [
      | inl t ↦ subst (Differs d) (sym (split_at n c s t)) (nil_differs d (c ∷ s) h, ih)
      | inr t ↦ subst (Differs d) (sym (split_on n c s k ks t e)) (
        first_differs d (c ∷ s) (c ∷ k)
            (starts_first n (c ∷ s) (c ∷ k) ks (split_on n c s k ks t e)) h,
        (subst (Differs d) e ih).1,
      )
    ]

read_heredoc-append :
    (d : Str) (ls : List Str) → Differs d ls → read_heredoc d (ls ++ d ∷ []) ≡ some ls
unfolding read_heredoc Differs
read_heredoc-append d [] h = rw (read_heredoc, str_eq_self d) refl
read_heredoc-append d (l ∷ ls) h = rw (read_heredoc, h.0, read_heredoc-append d ls h.1) refl

read_heredoc-remove :
    (nonce script : Str)
    → contains (delimiter nonce) (remove (delimiter nonce) script) ≡ false
    → any (λ c. c == 10) (delimiter nonce) ≡ false
    → read_heredoc
        (delimiter nonce)
        (split 10 (remove (delimiter nonce) script ++ 10 ∷ delimiter nonce))
      ≡ some (split 10 (remove (delimiter nonce) script))
read_heredoc-remove nonce script h q =
    let d = delimiter nonce in
    let s = remove d script in
    ap (read_heredoc d) (split-append 10 s d ∙ ap (λ ls. split 10 s ++ ls) (split_line 10 d q))
    ∙ read_heredoc-append d (split 10 s) (lines-Differs 10 d s h)

-- The document after the word, if that ends its line.
body_of : Option (Str × Str) → Option (List Str)
unfolding read_heredoc
body_of none = none
body_of (some (word, [])) = none
body_of (some (word, c ∷ body)) = if c == 10 then read_heredoc word (split 10 body) else none

-- What a shell reads after `<< `: its own word, then the lines up to that word. Only a quoted word
-- is read, here one that begins with a backslash: without a quote the lines are expanded.
unfoldable pub here_document : Str → Option (List Str)
unfolding body_of read_word
here_document [] = none
here_document (c ∷ s) = if c == 92 then body_of (read_word bare (c ∷ s)) else none

-- A letter, a digit or an underscore.
abbrev pub is_plain : ℕ → Bool
is_plain c = is_alphanumeric c || (c == 95)

advance_plain : (c : ℕ) → is_plain c ≡ true → advance bare c ≡ add (c ∷ []) bare
advance_plain c h = ground (arith, h)

read_plain :
    (s rest : Str)
    → any (λ c. not (is_plain c)) s ≡ false
    → read_word bare (s ++ 10 ∷ rest) ≡ some (s, 10 ∷ rest)
unfolding read_word
read_plain [] rest h = refl
read_plain (c ∷ s) rest h =
    let (plain, more) = or_false (not (is_plain c)) (any (λ d. not (is_plain d)) s) h in
    rw (read_word, advance_plain c (ground arith), read_plain s rest more) refl

plain_line : (s : Str) → any (λ c. not (is_plain c)) s ≡ false → any (λ c. c == 10) s ≡ false
plain_line [] h = refl
plain_line (c ∷ s) h = ground (arith, plain_line s)

delimiter-plain :
    (nonce : Str)
    → any (λ c. not (is_plain c)) nonce ≡ false
    → any (λ c. not (is_plain c)) (delimiter nonce) ≡ false
unfolding delimiter
delimiter-plain nonce h = h

here_document-delimiter :
    (nonce body : Str)
    → any (λ c. not (is_plain c)) nonce ≡ false
    → here_document (92 ∷ (delimiter nonce ++ 10 ∷ body))
      ≡ read_heredoc (delimiter nonce) (split 10 body)
unfolding here_document read_word delimiter body_of
here_document-delimiter nonce body h = rw (read_plain nonce body h) refl

abbrev start_of : Str → Str
start_of nonce = codes " 'bash -se' << \\" ++ delimiter nonce

regroup : (x y z : Str) → (((x ++ 10 ∷ []) ++ y) ++ 10 ∷ []) ++ z ≡ x ++ 10 ∷ (y ++ 10 ∷ z)
regroup x y z =
    append_assoc ((x ++ 10 ∷ []) ++ y) (10 ∷ []) z
    ∙ append_assoc (x ++ 10 ∷ []) y (10 ∷ z)
    ∙ append_assoc x (10 ∷ []) (y ++ 10 ∷ z)

-- If the nonce consists of letters, digits and underscores, and no delimiter occurs in what the
-- removal of the delimiters leaves of the script, then the command is the invocation of ssh with a
-- here-document, and what the shell reads as this document, up to the delimiter word that it finds
-- after `<<`, is exactly the lines of the script with each delimiter, from the left, cut out.
pub build_ssh_command-here_document :
    (conn : ServerConn) (script : Str) (timeout mux_socket : Option Str) (nonce : Str)
    → any (λ c. not (is_plain c)) nonce ≡ false
    → contains (delimiter nonce) (remove (delimiter nonce) script) ≡ false
    → (kept : Str) × (rest : Str) × Cut (delimiter nonce) script kept
      × (build_ssh_command conn script timeout mux_socket nonce
          ≡ ssh_invocation conn timeout mux_socket ++ (codes " 'bash -se' << " ++ rest))
      × (here_document rest ≡ some (split 10 kept))
unfolding build_ssh_command delimiter
build_ssh_command-here_document conn script timeout mux_socket nonce q h = (
  remove (delimiter nonce) script,
  92 ∷ (delimiter nonce ++ 10 ∷ (remove (delimiter nonce) script ++ 10 ∷ delimiter nonce)),
  remove-Cut 82 (codes "USTIFY_EOF_" ++ nonce) script,
  ap (λ t. ssh_invocation conn timeout mux_socket ++ t)
      (regroup (start_of nonce) (remove (delimiter nonce) script) (delimiter nonce)),
  here_document-delimiter nonce _ q
      ∙ read_heredoc-remove nonce script h (plain_line (delimiter nonce) (delimiter-plain nonce q)),
)
