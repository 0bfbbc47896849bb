-- ===== src/VideoDuration/Clamp.antt =====
-- What src/video-duration.ts lets a model be asked for.
use prism_control_plane.Prelude.{
  ℕ, ◌≡◌, ◌≤◌, ◌+◌, ◌⊎◌, Bool, true, false, List, [], ◌∷◌, All, if◌then◌else◌, ℤ, ◌==◌, any,
}
use prism_control_plane.VideoDuration.{VideoDurationSpec, exact_max, gap, distance}

-- A policy whose default is in its range, as are its allowed values, of sixteen seconds at most.
pub record IsSane (s : VideoDurationSpec) : Type 0 where
  pub low : s.min_sec ≤ s.default_sec
  pub high : s.default_sec ≤ s.max_sec
  pub positive : 1 ≤ s.min_sec
  pub capped : s.max_sec ≤ 16
  pub inside : All (λ a. (s.min_sec ≤ a) × (a ≤ s.max_sec)) s.allowed_sec

IsSane-if : (b : Bool) (s t : VideoDurationSpec) → IsSane s → IsSane t → IsSane (if b then s else t)
IsSane-if true s t h k = h
IsSane-if false s t h k = k

-- A value is one of those given or the first one, and none of them is nearer.
abbrev pub IsNearest : ℤ → List ℕ → ℕ → ℕ → Type 0
IsNearest base xs best r =
    ((r ≡ best) ⊎ (any (λ y. y == r) xs ≡ true))
    × (distance base r ≤ distance base best)
    × All (λ y. distance base r ≤ distance base y) xs

-- A value that a policy permits: in its range, and among the allowed ones where it lists them.
abbrev pub IsAmong : List ℕ → ℕ → Type 0
IsAmong [] n = Unit
IsAmong (x ∷ xs) n = any (λ y. y == n) (x ∷ xs) ≡ true

abbrev pub IsLegal : VideoDurationSpec → ℕ → Type 0
IsLegal spec n = (spec.min_sec ≤ n) × (n ≤ spec.max_sec) × IsAmong spec.allowed_sec n

-- Less than 2^53 seconds, even by sixteen, are counted and told apart exactly.
abbrev pub IsExact : ℤ → Type 0
IsExact base = gap base 0 + 16 ≤ exact_max
