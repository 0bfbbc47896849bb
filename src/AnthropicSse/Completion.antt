-- ===== src/AnthropicSse/Completion.antt =====
-- What the client and the meter get of an answer that comes whole, by
-- src/anthropic-sse-to-openai.ts.
use prism_control_plane.Prelude.{
  ℕ, zero, suc, ◌≡◌, ◌≤◌, refl, sym, ap, ◌∙◌, true, false, Option, none, some, List, [], ◌∷◌, ◌++◌,
  append_assoc, append-nil, map, length, take, drop, All, arith, pos,
}
use prism_control_plane.Prelude.Number.{integer}
use prism_control_plane.Prelude.Json.{Json, obj, field, end}
use prism_control_plane.Meter.{extract_usage}
use prism_control_plane.Stream.Scanner.{Seen, nothing_seen, read_frame}
use prism_control_plane.Stream.Chunks.{concat}
use prism_control_plane.AnthropicSse.{
  Head, Piece, opening, finish, text, usage, done, keepalive, payload_of, usage_json,
}
use prism_control_plane.AnthropicSse.Deferred.{
  Completion, told, chunk_size, slices, text_chunks, stream_from_completion, Deferred, enqueue,
  enqueue_each, start_deferred, DeferredEvent, tick, resolved, rejected, hung_up, send_finish,
  deferred_step, deferred_run,
}

abbrev pub replicate : {A : Type 0} → ℕ → A → List A
replicate zero a = []
replicate (suc n) a = a ∷ replicate n a

take-drop : (n : ℕ) (s : List ℕ) → take n s ++ drop n s ≡ s
take-drop zero s = refl
take-drop (suc n) [] = refl
take-drop (suc n) (c ∷ s) = ap (◌∷◌ c) (take-drop n s)

length-drop : (n : ℕ) (s : List ℕ) → length (drop n s) ≤ length s
length-drop zero s = omega arith
length-drop (suc n) [] = omega arith
length-drop (suc n) (c ∷ s) = omega (arith, length-drop n s)

-- As many slices as the text has units are enough.
concat-slices : (n : ℕ) (s : List ℕ) → length s ≤ n → concat (slices n s) ≡ s
unfolding slices
concat-slices zero [] h = refl
concat-slices zero (c ∷ s) h = absurd (omega arith)
concat-slices (suc n) [] h = refl
concat-slices (suc n) (c ∷ s) h =
    let less : length (drop 47 s) ≤ n = omega (arith, length-drop 47 s) in
    ap (λ t. c ∷ take 47 s ++ t) (concat-slices n (drop 47 s) less) ∙ ap (◌∷◌ c) (take-drop 47 s)

length-take : (n : ℕ) (s : List ℕ) → length (take n s) ≤ n
length-take zero s = omega arith
length-take (suc n) [] = omega arith
length-take (suc n) (c ∷ s) = omega (arith, length-take n s)

abbrev pub IsSlice : List ℕ → Type 0
IsSlice s = (1 ≤ length s) × (length s ≤ chunk_size)

slices-IsSlice : (n : ℕ) (s : List ℕ) → All IsSlice (slices n s)
unfolding slices
slices-IsSlice zero s = tt
slices-IsSlice (suc n) [] = tt
slices-IsSlice (suc n) (c ∷ s) =
    ((omega arith, omega (arith, length-take 47 s)), slices-IsSlice n (drop 47 s))

-- A stream that is over.
abbrev IsOver : List (Piece (List ℕ)) → Deferred → Type 0
IsOver sent d = (d.sent ≡ sent) × (d.is_closed ≡ true) × (d.has_timer ≡ false)

enqueue_each-IsOver :
    (sent xs : List (Piece (List ℕ))) (d : Deferred)
    → IsOver sent d
    → IsOver sent (enqueue_each xs d)
enqueue_each-IsOver sent [] d h = h
enqueue_each-IsOver sent (x ∷ xs) d (s, c, t) =
    enqueue_each-IsOver sent xs (enqueue (x ∷ []) d) (ground (arith, s, c, t))

send_finish-IsOver :
    (sent : List (Piece (List ℕ))) (d : Deferred) → IsOver sent d → IsOver sent (send_finish d)
send_finish-IsOver sent d (s, c, t) = ground (arith, s, c, t)

step-IsOver :
    (sent : List (Piece (List ℕ))) (e : DeferredEvent) (d : Deferred)
    → IsOver sent d
    → IsOver sent (deferred_step e d)
unfolding deferred_step
step-IsOver sent tick d (s, c, t) = ground (arith, s, c, t)
step-IsOver sent (resolved a) d h =
    let texts = text_chunks d.state.head a.text in
    let d' = record d { state = told a d.state } in
    send_finish-IsOver sent (enqueue_each texts d') (enqueue_each-IsOver sent texts d' h)
step-IsOver sent (rejected message) d (s, c, t) = ground (arith, s, c, t)
step-IsOver sent hung_up d (s, c, t) = ground (arith, s, c, t)

run-IsOver :
    (sent : List (Piece (List ℕ))) (es : List DeferredEvent) (d : Deferred)
    → IsOver sent d
    → IsOver sent (deferred_run es d)
unfolding deferred_run
run-IsOver sent [] d h = h
run-IsOver sent (e ∷ es) d h = run-IsOver sent es (deferred_step e d) (step-IsOver sent e d h)

-- An open stream that has sent so much.
abbrev open_with : Head → List (Piece (List ℕ)) → Deferred
open_with head sent = record (start_deferred head) { sent = sent }

ticks_run :
    (head : Head) (n : ℕ) (es : List DeferredEvent) (sent : List (Piece (List ℕ)))
    → deferred_run (replicate n tick ++ es) (open_with head sent)
      ≡ deferred_run es (open_with head (sent ++ replicate n keepalive))
unfolding deferred_run deferred_step
ticks_run head zero es sent = rw (append-nil sent) refl
ticks_run head (suc n) es sent =
    ticks_run head n es (sent ++ keepalive ∷ [])
    ∙ rw (append_assoc sent (keepalive ∷ []) (replicate n keepalive)) refl

each_sent :
    (xs : List (Piece (List ℕ))) (d : Deferred)
    → d.is_closed ≡ false
    → d.is_gone ≡ false
    → enqueue_each xs d ≡ record d { sent = d.sent ++ xs }
each_sent [] d c g = rw (append-nil d.sent) refl
each_sent (x ∷ xs) d c g =
    let next = record d { sent = d.sent ++ x ∷ [] } in
    let step : enqueue (x ∷ []) d ≡ next = ground (arith, c, g) in
    ap (enqueue_each xs) step
    ∙ each_sent xs next c g
    ∙ ap (λ l. record d { sent = l }) (append_assoc d.sent (x ∷ []) xs)

-- What is sent at the answer.
answered :
    (head : Head) (c : Completion) (sent : List (Piece (List ℕ)))
    → IsOver
        (sent ++ drop 1 (stream_from_completion head c))
        (deferred_step (resolved c) (open_with head sent))
unfolding deferred_step stream_from_completion
answered head c sent =
    let texts = text_chunks head c.text in
    let d = open_with head sent in
    let d' = record d { state = told c d.state } in
    rw (each_sent texts d' refl refl) (append_assoc sent texts _, refl, refl)

-- The meter's scanner over the frames, in order.
abbrev pub seen_next : Option Json → Seen → Seen
seen_next none s = s
seen_next (some frame) s = read_frame frame s

abbrev pub seen_of : {T : Type 0} → (T → Json) → List (Piece T) → Seen → Seen
seen_of as_json [] s = s
seen_of as_json (x ∷ xs) s = seen_of as_json xs (seen_next (payload_of as_json x) s)

-- The usage behind which nothing but the sentinel comes is the one that is kept.
usage_kept :
    (as_json : List ℕ → Json) (h : Head) (i o : ℕ) (xs : List (Piece (List ℕ))) (s : Seen)
    → (seen_of as_json (xs ++ finish h ∷ usage h (pos i) (pos o) ∷ done ∷ []) s).last_usage
      ≡ some (usage_json (pos i) (pos o))
unfolding read_frame
usage_kept as_json h i o [] s = refl
usage_kept as_json h i o (x ∷ xs) s =
    usage_kept as_json h i o xs (seen_next (payload_of as_json x) s)

-- What has come of an answer: `as_json` is how a text reads in a frame.
pub record IsDelivered (head : Head) (n : ℕ) (c : Completion) (i o : ℕ) (d : Deferred)
    : Type 0 where
  pub texts : List (List ℕ)
  pub whole : concat texts ≡ c.text
  pub short : All IsSlice texts
  pub sent :
      d.sent
      ≡ opening head
        ∷ (replicate n keepalive
            ++ map (text head) texts
            ++ finish head ∷ usage head (pos i) (pos o) ∷ done ∷ [])
  pub same_stream :
      d.sent ≡ opening head ∷ (replicate n keepalive ++ drop 1 (stream_from_completion head c))
  pub closed : d.is_closed ≡ true
  pub stopped : d.has_timer ≡ false
  pub metered :
      (as_json : List ℕ → Json)
      → (seen_of as_json d.sent nothing_seen).last_usage ≡ some (usage_json (pos i) (pos o))

usage_read :
    (i o : ℕ)
    → extract_usage (obj (field "usage" (usage_json (pos i) (pos o)) end))
      ≡ some (record { input_tokens = i; output_tokens = o })
unfolding extract_usage
usage_read i o = refl

behind_opening :
    (head : Head) (c : Completion) (i o : ℕ)
    → c.prompt_tokens ≡ some (integer (pos i))
    → c.completion_tokens ≡ some (integer (pos o))
    → drop 1 (stream_from_completion head c)
      ≡ text_chunks head c.text ++ finish head ∷ usage head (pos i) (pos o) ∷ done ∷ []
unfolding stream_from_completion
behind_opening head c i o hi ho = rw (hi, ho) refl

over-IsDelivered :
    (head : Head) (n : ℕ) (c : Completion) (i o : ℕ) (d : Deferred)
    → c.prompt_tokens ≡ some (integer (pos i))
    → c.completion_tokens ≡ some (integer (pos o))
    → IsOver (opening head ∷ replicate n keepalive ++ drop 1 (stream_from_completion head c)) d
    → IsDelivered head n c i o d
over-IsDelivered head n c i o d hi ho (same, closed, stopped) =
    let kept = opening head ∷ replicate n keepalive in
    let texts = text_chunks head c.text in
    let last = finish head ∷ usage head (pos i) (pos o) ∷ done ∷ [] in
    let sent : d.sent ≡ kept ++ texts ++ last =
      same
      ∙ ap (λ l. kept ++ l) (behind_opening head c i o hi ho)
      ∙ sym (append_assoc kept texts last) in
    record {
      texts = slices (length c.text) c.text;
      whole = concat-slices (length c.text) c.text (omega arith);
      short = slices-IsSlice (length c.text) c.text;
      sent = sent;
      same_stream = same;
      closed = closed;
      stopped = stopped;
      metered = λ as_json.
          ap (λ l. (seen_of as_json l nothing_seen).last_usage) sent
          ∙ usage_kept as_json head i o (kept ++ texts) nothing_seen;
    }

-- An answer that comes whole, after any number of keepalives and whatever happens behind it, is sent
-- whole and in order, in texts of 1 to 48 units, behind the opening and before the finish, the usage
-- and the sentinel, which come once: but for the keepalives it is the stream that
-- `openAIStreamFromCompletion` makes of it. The stream is closed and its timer stopped, and the
-- scanner of the meter, however texts are printed, reads off it the usage that the answer told, of
-- which the meter takes the same counts.
pub deferred-IsDelivered :
    (head : Head) (n : ℕ) (c : Completion) (rest : List DeferredEvent) (i o : ℕ)
    → c.prompt_tokens ≡ some (integer (pos i))
    → c.completion_tokens ≡ some (integer (pos o))
    → IsDelivered head n c i o
        (deferred_run (replicate n tick ++ resolved c ∷ rest) (start_deferred head))
      × (extract_usage (obj (field "usage" (usage_json (pos i) (pos o)) end))
          ≡ some (record { input_tokens = i; output_tokens = o }))
unfolding deferred_run stream_from_completion
deferred-IsDelivered head n c rest i o hi ho =
    let kept = opening head ∷ replicate n keepalive in
    let over =
      run-IsOver (kept ++ drop 1 (stream_from_completion head c)) rest
        (deferred_step (resolved c) (open_with head kept)) (answered head c kept) in
    (
      rw (ticks_run head n (resolved c ∷ rest) (opening head ∷ []))
          (over-IsDelivered head n c i o _ hi ho over),
      usage_read i o,
    )
