-- ===== src/Deploy/StatusSync/Mirror.antt =====
-- The statuses of applications, and what events tell of them.
use mathlib.Core.Option.{some-injective}
use rustify.Prelude.{
  ℕ, Bool, Option, some, List, [], ◌∷◌, ◌++◌, map, map_option, Str, str_eq, str_eq_sound, ◌==◌, ◌≡◌,
  refl, sym, ap, subst, ◌∙◌, inl, inr, Bool-cases, if◌then◌else◌, find, In, All,
}
use rustify.Prelude.Keyed.{update_where}
use rustify.Deploy.StatusSync.{Application, StatusEvent}

-- The keys of an application: its id and its uuid.
abbrev pub Keys : Type 0
Keys = ℕ × Str

abbrev pub keys : Application → Keys
keys a = (a.id, a.uuid)

-- Two applications with one id have one uuid, and the other way round.
abbrev pub IsKeyed : List Keys → Type 0
IsKeyed ks = All (λ a. All (λ b. (a.0 == b.0) ≡ str_eq a.1 b.1) ks) ks

-- The status of the application with a uuid.
abbrev pub shown : Str → List Application → Option Str
shown uuid apps = map_option (λ (a : Application). a.status) (find (λ a. str_eq a.uuid uuid) apps)

-- What a listener shows after events.
abbrev pub replay : Str → List StatusEvent → Option Str → Option Str
replay uuid [] status = status
replay uuid (e ∷ es) status =
    replay uuid es (if str_eq uuid e.application then map_option (λ _. e.status) status else status)

pub replay-append :
    (uuid : Str) (es fs : List StatusEvent) (status : Option Str)
    → replay uuid (es ++ fs) status ≡ replay uuid fs (replay uuid es status)
replay-append uuid [] fs status = refl
replay-append uuid (e ∷ es) fs status = replay-append uuid es fs _

pub keys-update :
    (p : Application → Bool) (f : Application → Application)
    (keeps : (a : Application) → keys (f a) ≡ keys a) (apps : List Application)
    → map keys (update_where p f apps) ≡ map keys apps
keys-update p f keeps [] = refl
keys-update p f keeps (a ∷ rest) = elim (Bool-cases (p a)) [
  | inl e ↦ rw (e, keeps a, keys-update p f keeps rest) refl
  | inr e ↦ rw (e, keys-update p f keeps rest) refl
]

-- An update that leaves statuses.
pub shown-keep :
    (uuid : Str) (p : Application → Bool) (f : Application → Application)
    (keeps : (a : Application) → keys (f a) ≡ keys a)
    (same : (a : Application) → (f a).status ≡ a.status) (apps : List Application)
    → shown uuid (update_where p f apps) ≡ shown uuid apps
shown-keep uuid p f keeps same [] = refl
shown-keep uuid p f keeps same (a ∷ rest) =
    let k : (f a).uuid ≡ a.uuid = ap (λ (x : Keys). x.1) (keeps a) in
    elim (Bool-cases (p a)) [
      | inl e ↦ elim (Bool-cases (str_eq a.uuid uuid)) [
        | inl q ↦ rw (e, k, q, same a) refl
        | inr q ↦ rw (e, k, q) (shown-keep uuid p f keeps same rest)
      ]
      | inr e ↦ elim (Bool-cases (str_eq a.uuid uuid)) [
        | inl q ↦ rw (e, q) refl
        | inr q ↦ rw (e, q) (shown-keep uuid p f keeps same rest)
      ]
    ]

-- An update of the status of the application with keys `k`.
pub shown-set :
    (uuid status : Str) (k : Keys) (apps : List Application)
    → All (λ b. (b.0 == k.0) ≡ str_eq b.1 k.1) (map keys apps)
    → shown uuid (update_where (λ a. a.id == k.0) (λ a. record a { status = status }) apps)
      ≡ (if str_eq uuid k.1 then map_option (λ _. status) (shown uuid apps) else shown uuid apps)
shown-set uuid status k [] h = elim (Bool-cases (str_eq uuid k.1)) [
  | inl e ↦ rw e refl
  | inr e ↦ rw e refl
]
shown-set uuid status k (a ∷ rest) h = elim (Bool-cases (str_eq a.uuid uuid)) [
  | inl q ↦
      let t : (a.id == k.0) ≡ str_eq uuid k.1 =
        subst (λ (x : Str). (a.id == k.0) ≡ str_eq x k.1) (str_eq_sound a.uuid uuid q) h.0 in
      elim (Bool-cases (str_eq uuid k.1)) [ inl e ↦ rw (t, e, q) refl | inr e ↦ rw (t, e, q) refl ]
  | inr q ↦ elim (Bool-cases (a.id == k.0)) [
    | inl e ↦ rw (e, q) (shown-set uuid status k rest h.1)
    | inr e ↦ rw (e, q) (shown-set uuid status k rest h.1)
  ]
]

pub find-keys :
    (uuid : Str) (apps : List Application) (a : Application)
    → find (λ x. str_eq x.uuid uuid) apps ≡ some a
    → In (keys a) (map keys apps) × (a.uuid ≡ uuid)
find-keys uuid [] a h = cc
find-keys uuid (x ∷ xs) a h = elim (Bool-cases (str_eq x.uuid uuid)) [
  | inl e ↦
      let q : x ≡ a = some-injective _ _ (rw e at h) in
      (inl (ap keys q), ap (λ (y : Application). y.uuid) (sym q) ∙ str_eq_sound x.uuid uuid e)
  | inr e ↦ let (i, q) = find-keys uuid xs a (rw e at h) in (inr i, q)
]
