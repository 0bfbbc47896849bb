-- ===== src/Http/Body.antt =====
-- What a body read by src/http.ts holds.
use prism_control_plane.Prelude.{
  ℕ, ◌+◌, ◌≡◌, ◌≤◌, refl, sym, Bool, true, false, Option, none, some, List, [], ◌∷◌, ◌++◌, arith,
  ltb, length, length-append, append_assoc, append-nil, Bool-cases, inl, inr, ◌↔◌,
}
use prism_control_plane.Prelude.Number.{Number}
use prism_control_plane.Http.{
  Read, bytes, end_of_body, broken, ReadBodyResult, ok, refused, declares_more, read_chunks,
  read_body_bytes_capped,
}

-- The bytes that come in before the end or an exception, and whether that was an exception.
abbrev pub sent : List Read → List ℕ
sent [] = []
sent (end_of_body ∷ rest) = []
sent (broken ∷ rest) = []
sent (bytes b ∷ rest) = b ++ sent rest

abbrev pub breaks : List Read → Bool
breaks [] = false
breaks (end_of_body ∷ rest) = false
breaks (broken ∷ rest) = true
breaks (bytes b ∷ rest) = breaks rest

-- The most that one read brings.
abbrev pub AtMost : ℕ → List Read → Type 0
AtMost n [] = Unit
AtMost n (bytes b ∷ rest) = (length b ≤ n) × AtMost n rest
AtMost n (_ ∷ rest) = AtMost n rest

read_chunks_pulled :
    (max_bytes n : ℕ) (reads : List Read) (sofar : List ℕ)
    → length sofar ≤ max_bytes
    → AtMost n reads
    → (read_chunks max_bytes reads sofar).pulled ≤ max_bytes + n
read_chunks_pulled max_bytes n [] sofar h a = omega arith
read_chunks_pulled max_bytes n (end_of_body ∷ rest) sofar h a = omega arith
read_chunks_pulled max_bytes n (broken ∷ rest) sofar h a = omega arith
read_chunks_pulled max_bytes n (bytes b ∷ rest) sofar h a =
    elim (Bool-cases (ltb max_bytes (length sofar + length b))) [
      | inl e ↦ rw e (omega (arith, a.0))
      | inr e ↦ rw e (
          read_chunks_pulled max_bytes n rest (sofar ++ b) (ground (arith, length-append sofar b))
            a.1)
    ]

read_chunks-ok_iff :
    (max_bytes : ℕ) (reads : List Read) (sofar raw : List ℕ)
    → length sofar ≤ max_bytes
    → (read_chunks max_bytes reads sofar).outcome ≡ ok raw
    → (raw ≡ sofar ++ sent reads) × (length raw ≤ max_bytes) × (breaks reads ≡ false)
read_chunks-ok_iff max_bytes [] sofar raw h e =
    let same : sofar ≡ raw = ground arith in rw (append-nil sofar) (sym same, rw (← same) h, refl)
read_chunks-ok_iff max_bytes (end_of_body ∷ rest) sofar raw h e =
    let same : sofar ≡ raw = ground arith in rw (append-nil sofar) (sym same, rw (← same) h, refl)
read_chunks-ok_iff max_bytes (broken ∷ rest) sofar raw h e = cc
read_chunks-ok_iff max_bytes (bytes b ∷ rest) sofar raw h e =
    elim (Bool-cases (ltb max_bytes (length sofar + length b))) [
      | inl over ↦ absurd (ground arith)
      | inr under ↦ rw (append_assoc sofar b (sent rest)) at (
          read_chunks-ok_iff max_bytes rest (sofar ++ b) raw (ground (arith, length-append sofar b))
            (ground arith))
    ]

read_chunks-fits :
    (max_bytes : ℕ) (reads : List Read) (sofar : List ℕ)
    → length (sofar ++ sent reads) ≤ max_bytes
    → breaks reads ≡ false
    → (read_chunks max_bytes reads sofar).outcome ≡ ok (sofar ++ sent reads)
read_chunks-fits max_bytes [] sofar h e = rw (append-nil sofar)
read_chunks-fits max_bytes (end_of_body ∷ rest) sofar h e = rw (append-nil sofar)
read_chunks-fits max_bytes (broken ∷ rest) sofar h e = cc
read_chunks-fits max_bytes (bytes b ∷ rest) sofar h e =
    let fits : length sofar + length b ≤ max_bytes =
      ground (arith, length-append sofar (b ++ sent rest), length-append b (sent rest)) in
    let under : ltb max_bytes (length sofar + length b) ≡ false = ground arith in
    rw under (
      rw (append_assoc sofar b (sent rest)) at
        (read_chunks-fits max_bytes rest (sofar ++ b) (rw (append_assoc sofar b (sent rest)) h) e))

-- A body with no declared length is read whole, unchanged, exactly when it comes in without an
-- exception and within the cap.
pub read_body_bytes_capped-ok_iff :
    (reads : List Read) (max_bytes : ℕ)
    → (((read_body_bytes_capped none (some reads) max_bytes).outcome ≡ ok (sent reads))
        ↔ ((length (sent reads) ≤ max_bytes) × (breaks reads ≡ false)))
unfolding read_body_bytes_capped
read_body_bytes_capped-ok_iff reads max_bytes = (
  λ e.
      let (_, fits, whole) = read_chunks-ok_iff max_bytes reads [] (sent reads) (omega arith) e in
      (fits, whole),
  λ h. read_chunks-fits max_bytes reads [] h.0 h.1,
)

-- What is accepted is what was sent, and is within the cap.
abbrev pub IsCapped : ℕ → List Read → ReadBodyResult (List ℕ) → Type 0
IsCapped max_bytes reads (ok raw) = (raw ≡ sent reads) × (length raw ≤ max_bytes)
IsCapped max_bytes reads (refused code) = Unit

read_chunks-IsCapped :
    (max_bytes : ℕ) (reads : List Read) (o : ReadBodyResult (List ℕ))
    → (read_chunks max_bytes reads []).outcome ≡ o
    → IsCapped max_bytes reads o
read_chunks-IsCapped max_bytes reads (ok raw) e =
    let (same, fits, _) = read_chunks-ok_iff max_bytes reads [] raw (omega arith) e in (same, fits)
read_chunks-IsCapped max_bytes reads (refused code) e = tt

-- Whatever is declared and whatever is sent: what is accepted is what was sent and is within the cap,
-- and no more than the cap and one read are ever taken in.
pub read_body_bytes_capped-IsCapped :
    (declared : Option Number) (reads : List Read) (max_bytes n : ℕ)
    → AtMost n reads
    → let r = read_body_bytes_capped declared (some reads) max_bytes in
      IsCapped max_bytes reads r.outcome × (r.pulled ≤ max_bytes + n)
unfolding read_body_bytes_capped
read_body_bytes_capped-IsCapped declared reads max_bytes n a =
    elim (Bool-cases (declares_more max_bytes declared)) [
      | inl more ↦ rw more (tt, omega arith)
      | inr less ↦ rw less (
        read_chunks-IsCapped max_bytes reads (read_chunks max_bytes reads []).outcome refl,
        read_chunks_pulled max_bytes n reads [] (omega arith) a,
      )
    ]
