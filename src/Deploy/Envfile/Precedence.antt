-- ===== src/Deploy/Envfile/Precedence.antt =====
-- Which layer decides a variable of the build.
use rustify.Prelude.{
  Bool, true, false, [], ◌∷◌, Str, str_eq, str_eq_sound, str_eq_self, if◌then◌else◌, Option, none,
  some, ◌≡◌, refl, sym, subst, ap, ◌∙◌, arith, inl, inr, Bool-cases,
}
use rustify.Deploy.Envfile.{
  Pairs, BuildEnvLayers, upsert, upsert_all, is_reserved, upsert_nixpacks, merge_build_env,
}

-- The value of a key, and its last value in a layer.
unfoldable pub lookup : Str → Pairs → Option Str
lookup k [] = none
lookup k (p ∷ ps) = let rest = lookup k ps in if str_eq p.0 k then some p.1 else rest

abbrev pub or_else : Option Str → Option Str → Option Str
or_else (some a) b = some a
or_else none b = b

unfoldable pub last_value : Str → Pairs → Option Str
last_value k [] = none
last_value k (p ∷ ps) = or_else (last_value k ps) (if str_eq p.0 k then some p.1 else none)

same_key : (a b k : Str) → str_eq a k ≡ true → str_eq b k ≡ true → str_eq a b ≡ true
same_key a b k p q =
    subst (λ x. str_eq x b ≡ true) (str_eq_sound b k q ∙ sym (str_eq_sound a k p)) (str_eq_self b)

reserved_key : (a k : Str) → str_eq a k ≡ true → is_reserved k ≡ is_reserved a
reserved_key a k p = ap is_reserved (sym (str_eq_sound a k p))

overwritten :
    (k key value old : Str) (rest : Option Str)
    → (if str_eq key k then some value else rest)
      ≡ (if str_eq key k then some value else (if str_eq key k then some old else rest))
overwritten k key value old rest = ground arith

kept :
    (a b : Bool) (value old : Str) (rest : Option Str)
    → (a ≡ true → b ≡ true → ⊥)
    → (if b then some old else (if a then some value else rest))
      ≡ (if a then some value else (if b then some old else rest))
kept true true value old rest h = absurd (h refl refl)
kept true false value old rest h = refl
kept false b value old rest h = refl

apart : {b : Bool} → b ≡ true → b ≡ false → ⊥
apart {b = b} t f = ground arith

lookup-upsert :
    (k key value : Str) (ps : Pairs)
    → lookup k (upsert ps key value) ≡ (if str_eq key k then some value else lookup k ps)
unfolding lookup upsert
lookup-upsert k key value [] = refl
lookup-upsert k key value (p ∷ ps) = elim (Bool-cases (str_eq p.0 key)) [
  | inl e ↦
      rw (upsert, e)
        (subst
          (λ x.
            (if str_eq p.0 k then some value else lookup k ps)
            ≡ (if str_eq x k then some value else (if str_eq p.0 k then some p.1 else lookup k ps)))
          (str_eq_sound p.0 key e) (overwritten k p.0 value p.1 (lookup k ps)))
  | inr e ↦
      rw (upsert, e, lookup-upsert k key value ps)
        (kept (str_eq key k) (str_eq p.0 k) value p.1 (lookup k ps)
          (λ q r. apart (same_key p.0 key k r q) e))
]

layered :
    (l : Option Str) (b : Bool) (v : Str) (rest : Option Str)
    → or_else l (if b then some v else rest) ≡ or_else (or_else l (if b then some v else none)) rest
layered none true v rest = refl
layered none false v rest = refl
layered (some a) b v rest = refl

lookup-upsert_all :
    (k : Str) (out ps : Pairs)
    → lookup k (upsert_all out ps) ≡ or_else (last_value k ps) (lookup k out)
unfolding upsert_all last_value
lookup-upsert_all k out [] = refl
lookup-upsert_all k out (p ∷ ps) =
    lookup-upsert_all k (upsert out p.0 p.1) ps
    ∙ rw (lookup-upsert k p.0 p.1 out) (layered (last_value k ps) (str_eq p.0 k) p.1 (lookup k out))

passed_over :
    (l : Option Str) (r b : Bool) (v : Str) (rest : Option Str)
    → (b ≡ true → r ≡ true)
    → or_else (if r then none else l) rest
      ≡ or_else (if r then none else or_else l (if b then some v else none)) rest
passed_over l true b v rest h = refl
passed_over l false true v rest h = absurd (apart (h refl) refl)
passed_over none false false v rest h = refl
passed_over (some a) false false v rest h = refl

taken :
    (l : Option Str) (r b : Bool) (v : Str) (rest : Option Str)
    → (b ≡ true → r ≡ false)
    → or_else (if r then none else l) (if b then some v else rest)
      ≡ or_else (if r then none else or_else l (if b then some v else none)) rest
taken l true true v rest h = absurd (apart refl (h refl))
taken l true false v rest h = refl
taken none false true v rest h = refl
taken none false false v rest h = refl
taken (some a) false b v rest h = refl

no_layer : (r : Bool) (rest : Option Str) → rest ≡ or_else (if r then none else none) rest
no_layer true rest = refl
no_layer false rest = refl

lookup-upsert_nixpacks :
    (k : Str) (out ps : Pairs)
    → lookup k (upsert_nixpacks out ps)
      ≡ or_else (if is_reserved k then none else last_value k ps) (lookup k out)
unfolding upsert_nixpacks last_value
lookup-upsert_nixpacks k out [] = no_layer (is_reserved k) (lookup k out)
lookup-upsert_nixpacks k out (p ∷ ps) = elim (Bool-cases (is_reserved p.0)) [
  | inl r ↦
      rw (upsert_nixpacks, r)
        (lookup-upsert_nixpacks k out ps
          ∙ passed_over (last_value k ps) (is_reserved k) (str_eq p.0 k) p.1 (lookup k out)
              (λ q. reserved_key p.0 k q ∙ r))
  | inr r ↦
      rw (upsert_nixpacks, r)
        (lookup-upsert_nixpacks k (upsert out p.0 p.1) ps
          ∙ rw (lookup-upsert k p.0 p.1 out) (
              taken (last_value k ps) (is_reserved k) (str_eq p.0 k) p.1 (lookup k out)
                (λ q. reserved_key p.0 k q ∙ r)))
]

or_none : (o : Option Str) → or_else o none ≡ o
or_none none = refl
or_none (some a) = refl

-- A variable of the build has the user's last value for it, else that of the services, else that of
-- Rustify, else, unless the key is reserved, that of the nixpacks plan.
pub lookup-merge_build_env :
    (k : Str) (l : BuildEnvLayers)
    → lookup k (merge_build_env l)
      ≡ or_else (last_value k l.user_buildtime) (
          or_else (last_value k l.service) (
            or_else
              (last_value k l.rustify)
              (if is_reserved k then none else last_value k l.nixpacks)))
unfolding merge_build_env lookup
lookup-merge_build_env k l =
    lookup-upsert_all k _ l.user_buildtime
    ∙ ap (or_else (last_value k l.user_buildtime)) (
        lookup-upsert_all k _ l.service
        ∙ ap (or_else (last_value k l.service)) (
            lookup-upsert_all k _ l.rustify
            ∙ ap (or_else (last_value k l.rustify))
                (lookup-upsert_nixpacks k [] l.nixpacks ∙ or_none _)))
