-- ===== src/Core/Retention/Overflow.antt =====
-- The running total of the size rule never wraps.
use rustify.Prelude.{
  ℕ, ◌+◌, ◌*◌, ◌^◌, ◌<◌, ◌≤◌, ◌≡◌, refl, Option, none, some, List, [], ◌∷◌, arith, ltb,
  if◌then◌else◌, All,
}
use rustify.Prelude.Int.{pos_part}
use rustify.Core.Retention.{ExecMeta, u64, crossing, bytes_per_gb}

-- The loop over unbounded numbers.
pub crossing_exact : ℕ → ℕ → List ExecMeta → Option ExecMeta
crossing_exact max_bytes total [] = none
crossing_exact max_bytes total (e ∷ es) =
    let total' = total + pos_part e.size in
    let rest = crossing_exact max_bytes total' es in if ltb max_bytes total' then some e else rest

abbrev pub FitsI64 : ExecMeta → Type 0
FitsI64 e = pos_part e.size < 2 ^ 63

crossing-eq_from :
    (max_bytes total : ℕ) (es : List ExecMeta)
    → max_bytes < 2 ^ 62
    → total ≤ max_bytes
    → All FitsI64 es
    → crossing max_bytes total es ≡ crossing_exact max_bytes total es
unfolding crossing crossing_exact
crossing-eq_from max_bytes total [] b t h = refl
crossing-eq_from max_bytes total (e ∷ es) b t h =
    let same : u64 (total + pos_part e.size) ≡ total + pos_part e.size = omega (arith, h.0) in
    rw same (ground (arith, crossing-eq_from max_bytes (total + pos_part e.size) es b))

-- For a cap that is an unsigned 32-bit number of gigabytes and sizes that are signed 64-bit
-- numbers, the 64-bit running total finds the execution that unbounded numbers find.
pub crossing-eq_exact :
    (max_gb : ℕ) (es : List ExecMeta)
    → max_gb < 2 ^ 32
    → All FitsI64 es
    → crossing (max_gb * bytes_per_gb) 0 es ≡ crossing_exact (max_gb * bytes_per_gb) 0 es
crossing-eq_exact max_gb es b h =
    crossing-eq_from (max_gb * bytes_per_gb) 0 es (omega arith) (omega arith) h
