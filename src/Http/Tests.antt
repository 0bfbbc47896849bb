-- ===== src/Http/Tests.antt =====
-- Tests of src/http.ts.
use prism_control_plane.Prelude.{◌≡◌, ◌≤◌, ◌+◌, refl, arith, none, some, List, [], ◌∷◌}
use prism_control_plane.Http.{
  Read, bytes, end_of_body, refused, payload_too_large, read_body_bytes_capped, status_for_code,
  quota_exhausted,
}
use prism_control_plane.Http.Body.{read_body_bytes_capped-IsCapped, IsCapped}

abbrev two_reads : List Read
two_reads = bytes (1 ∷ 2 ∷ []) ∷ bytes (3 ∷ []) ∷ end_of_body ∷ []

read_body_bytes_capped-IsCapped_example :
    let r = read_body_bytes_capped none (some two_reads) 3 in
    IsCapped 3 two_reads r.outcome × (r.pulled ≤ 3 + 2)
read_body_bytes_capped-IsCapped_example =
    read_body_bytes_capped-IsCapped none two_reads 3 2 (omega arith, (omega arith, tt))

cut_off : (read_body_bytes_capped none (some two_reads) 2).outcome ≡ refused payload_too_large
unfolding read_body_bytes_capped
cut_off = refl

no_retry : status_for_code quota_exhausted ≡ 402
unfolding status_for_code
no_retry = refl
