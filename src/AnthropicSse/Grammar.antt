-- ===== src/AnthropicSse/Grammar.antt =====
-- The order of the frames that src/anthropic-sse-to-openai.ts sends.
use prism_control_plane.Prelude.{
  ℕ, ◌≡◌, refl, ◌∙◌, Bool, true, false, ◌&&◌, not, String, Option, none, some, List, [], ◌∷◌, ◌++◌,
  str_eq, arith, Bool-cases, Option-cases, inl, inr,
}
use prism_control_plane.Prelude.Json.{Json, member}
use prism_control_plane.Prelude.Text.{codes, split, trim}
use prism_control_plane.Stream.Scanner.{Platform, strip_prefix, is_silent}
use prism_control_plane.AnthropicSse.{
  Head, TranslationState, Piece, opening, finish, text, usage, problem, done, keepalive, open_chunk,
  close_once, text_chunk, delta_text, member_of, is_quiet, frames_of_kind, kind_of,
  payload_to_frames, drop_return, translate_line, translate_lines, Transformer, new_transformer,
  push_bytes, last_line, end_stream, transform,
}

-- Where a stream of chunks stands.
pub data Phase : Type 0 where
  waiting talking ending counted over : Phase

-- What may come next: the opening first, then texts, an error or the finish, then at most one usage,
-- and the sentinel. A keepalive may come at any time, and a text may come late.
abbrev pub accept : {T : Type 0} → Phase → Piece T → Option Phase
accept phase keepalive = some phase
accept waiting (opening h) = some talking
accept talking (text h t) = some talking
accept talking (problem message) = some talking
accept talking (finish h) = some ending
accept ending (usage h input output) = some counted
accept ending done = some over
accept counted done = some over
accept over (text h t) = some over
accept _ _ = none

abbrev pub walk : {T : Type 0} → Phase → List (Piece T) → Option Phase
walk phase [] = some phase
walk phase (x ∷ xs) = elim (accept phase x) [ none ↦ none | some next ↦ walk next xs ]

walk-append :
    {T : Type 0} (p q : Phase) (xs ys : List (Piece T))
    → walk p xs ≡ some q
    → walk p (xs ++ ys) ≡ walk q ys
walk-append p q [] ys h = let same : p ≡ q = ground arith in rw same refl
walk-append p q (x ∷ xs) ys h = elim (Option-cases (accept p x)) [
  | inl e ↦ absurd (stuck (rw (e, walk) at h))
  | inr (r, e) ↦ rw (e, walk) (walk-append r q xs ys (rw (e, walk) at h))
]
  where
    stuck : none ≡ some q → ⊥
    stuck h = cc

-- The phase of a state. No stream is finished before it is opened.
abbrev phase_of : Bool → Bool → Phase
phase_of opened true = over
phase_of true false = talking
phase_of false false = waiting

abbrev stage : TranslationState → Phase
stage s = phase_of s.opened s.finished

abbrev IsSound : TranslationState → Type 0
IsSound s = (s.finished && not s.opened) ≡ false

abbrev Moves : {T : Type 0} → Phase → TranslationState × List (Piece T) → Type 0
Moves phase (s, out) = (walk phase out ≡ some (stage s)) × IsSound s

open_chunk-Moves :
    (T : Type 0) (s : TranslationState) → IsSound s → Moves {T = T} (stage s) (open_chunk s)
open_chunk-Moves T s h = ground (arith, h)

close_once-Moves :
    (T : Type 0) (s : TranslationState) → IsSound s → Moves {T = T} (stage s) (close_once s)
close_once-Moves T s h = ground (arith, h)

text_chunk-Moves :
    (o : Option String) (s : TranslationState) → IsSound s → Moves (stage s) (text_chunk o s)
text_chunk-Moves none s h = (refl, h)
text_chunk-Moves (some t) s h = ground (arith, h)

frames_of_kind-Moves :
    (kind : String) (frame : Json) (s : TranslationState)
    → IsSound s
    → Moves (stage s) (frames_of_kind kind frame s)
frames_of_kind-Moves kind frame s h = elim (Bool-cases (str_eq kind "message_start")) [
  | inl e ↦ rw e (open_chunk-Moves String _ h)
  | inr e ↦ elim (Bool-cases (str_eq kind "content_block_delta")) [
    | inl f ↦
        rw (e, f)
          (text_chunk-Moves
            (delta_text (member_of "type" (member "delta" frame))
              (member_of "text" (member "delta" frame)))
            s h)
    | inr f ↦ elim (Bool-cases (str_eq kind "message_delta")) [
      | inl g ↦ rw (e, f, g) (refl, h)
      | inr g ↦ elim (Bool-cases (str_eq kind "message_stop")) [
        | inl k ↦ rw (e, f, g, k) (close_once-Moves String s h)
        | inr k ↦ elim (Bool-cases (is_quiet kind)) [
          | inl q ↦ rw (e, f, g, k, q) (refl, h)
          | inr q ↦ rw (e, f, g, k, q) (refl, h)
        ]
      ]
    ]
  ]
]

payload_to_frames-Moves :
    (frame : Json) (s : TranslationState) → IsSound s → Moves (stage s) (payload_to_frames frame s)
unfolding payload_to_frames
payload_to_frames-Moves frame s h = elim (Option-cases (kind_of (member "type" frame))) [
  | inl e ↦ rw (e, payload_to_frames) (refl, h)
  | inr (kind, e) ↦ rw (e, payload_to_frames) (frames_of_kind-Moves kind frame s h)
]

-- Two steps, one after the other.
Moves-append :
    (phase : Phase) (s t : TranslationState) (out more : List (Piece String))
    → Moves phase (s, out)
    → Moves (stage s) (t, more)
    → Moves phase (t, out ++ more)
Moves-append phase s t out more (w, h) (v, k) = (walk-append phase (stage s) out more w ∙ v, k)

module _ (p : Platform) where
  translate_line-Moves :
      (line : List ℕ) (s : TranslationState) → IsSound s → Moves (stage s) (translate_line p line s)
  unfolding translate_line
  translate_line-Moves line s h =
      elim (Option-cases (strip_prefix (codes "data:") (drop_return line))) [
        | inl e ↦ rw (e, translate_line) (refl, h)
        | inr (rest, e) ↦ elim (Bool-cases (is_silent (trim rest))) [
          | inl q ↦ rw (e, translate_line, q) (refl, h)
          | inr q ↦ elim (Option-cases (p.parse_json (trim rest))) [
            | inl n ↦ rw (e, translate_line, q, n) (refl, h)
            | inr (frame, n) ↦ rw (e, translate_line, q, n) (payload_to_frames-Moves frame s h)
          ]
        ]
      ]

  translate_lines-Moves :
      (lines : List (List ℕ)) (s : TranslationState)
      → IsSound s
      → let (last, t, out) = translate_lines p lines s in Moves (stage s) (t, out)
  translate_lines-Moves [] s h = (refl, h)
  translate_lines-Moves (last ∷ []) s h = (refl, h)
  translate_lines-Moves (line ∷ next ∷ lines) s h =
      let step = translate_line-Moves line s h in
      let (s', out) = translate_line p line s in
      let after = translate_lines p (next ∷ lines) s' in
      Moves-append (stage s) s' after.1 out after.2 step
        (translate_lines-Moves (next ∷ lines) s' step.1)

  last_line-Moves :
      (buffer : List ℕ) (s : TranslationState) → IsSound s → Moves (stage s) (last_line p buffer s)
  last_line-Moves [] s h = (refl, h)
  last_line-Moves (c ∷ buffer) s h = translate_line-Moves (c ∷ buffer) s h

  close_once-over :
      (s : TranslationState) → IsSound s → walk (stage s) (close_once {T = String} s).1 ≡ some over
  close_once-over s h = ground (arith, h)

  end_stream-over :
      (t : Transformer p) → IsSound t.state → walk (stage t.state) (end_stream p t).1 ≡ some over
  unfolding end_stream
  end_stream-over t h =
      let rest = t.buffer ++ p.flush t.decoder in
      let step = last_line-Moves rest t.state h in
      let (s, out) = last_line p rest t.state in
      walk-append (stage t.state) (stage s) out (close_once s).1 step.0 ∙ close_once-over s step.1

  transform-over :
      (chunks : List (List ℕ)) (t : Transformer p)
      → IsSound t.state
      → walk (stage t.state) (transform p chunks t) ≡ some over
  unfolding transform push_bytes
  transform-over [] t h = end_stream-over t h
  transform-over (chunk ∷ chunks) t h =
      let lines = split b'\n' (t.buffer ++ (p.decode chunk t.decoder).1) in
      let step = translate_lines-Moves lines t.state h in
      let (t', out) = push_bytes p chunk t in
      walk-append (stage t.state) (stage t'.state) out (transform p chunks t') step.0
      ∙ transform-over chunks t' step.1

-- Whatever an upstream sends, in whatever chunks, and wherever it breaks off, the client gets a whole
-- stream of chat-completion chunks: the opening once and first, the finish once behind the texts, at
-- most one usage, and the sentinel once; a text behind the sentinel is all that may follow it, and
-- keepalives stand anywhere.
pub transform-IsWhole :
    (p : Platform) (head : Head) (chunks : List (List ℕ))
    → walk waiting (transform p chunks (new_transformer p head)) ≡ some over
transform-IsWhole p head chunks = transform-over p chunks (new_transformer p head) refl
