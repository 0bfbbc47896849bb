-- ===== src/AnthropicSse/Tests.antt =====
-- The results of AnthropicSse at a platform that decodes ASCII and reads three fixed frames.
use prism_control_plane.Prelude.{
  ℕ, ◌≡◌, refl, true, none, some, List, [], ◌∷◌, ◌++◌, pos, if◌then◌else◌,
}
use prism_control_plane.Prelude.Number.{integer}
use prism_control_plane.Prelude.Text.{codes, codes_eq}
use prism_control_plane.Prelude.Json.{Json, num, str, obj, end, field}
use prism_control_plane.Meter.{extract_usage}
use prism_control_plane.Stream.Scanner.{Platform}
use prism_control_plane.AnthropicSse.{
  Head, opening, finish, text, usage, done, keepalive, usage_json, new_transformer, transform,
}
use prism_control_plane.AnthropicSse.Grammar.{waiting, over, walk, transform-IsWhole}
use prism_control_plane.AnthropicSse.Deferred.{
  Completion, tick, resolved, hung_up, start_deferred, deferred_run, slices,
}
use prism_control_plane.AnthropicSse.Completion.{replicate, IsDelivered, deferred-IsDelivered}

abbrev started : Json
started = obj (
    field "type" (str "message_start") (
      field "message"
        (obj (field "usage" (obj (field "input_tokens" (num (integer (pos 9))) end)) end)) end))

abbrev spoken : Json
spoken = obj (
    field "type" (str "content_block_delta")
      (field "delta" (obj (field "type" (str "text_delta") (field "text" (str "hi") end))) end))

abbrev ascii : Platform
ascii = record {
  Decoder = Unit {0};
  initial = tt;
  decode = λ c d. (d, c);
  flush = λ d. [];
  parse_json = λ s.
      if codes_eq s (codes "1")
      then some started
      else if codes_eq s (codes "2")
      then some spoken
      else if codes_eq s (codes "3")
      then some (obj (field "type" (str "ping") end))
      else none;
}

abbrev head : Head
head = record { id = "chatcmpl-1"; model = "m"; created = 70 }

-- A stream that breaks off behind its text, cut within a line.
abbrev chunks : List (List ℕ)
chunks = codes "event: x\ndata: 1\r\nda" ∷ codes "ta: 3\ndata: 2\nda" ∷ []

translates :
    transform ascii chunks (new_transformer ascii head)
    ≡ opening head
      ∷ keepalive
      ∷ text head "hi"
      ∷ finish head
      ∷ usage head (pos 9) (pos 0)
      ∷ done
      ∷ []
unfolding transform
translates = refl

transform-IsWhole_example :
    walk waiting (transform ascii chunks (new_transformer ascii head)) ≡ some over
transform-IsWhole_example = transform-IsWhole ascii head chunks

abbrev answer : Completion
answer = record {
  text = codes "hello";
  prompt_tokens = some (integer (pos 9));
  completion_tokens = some (integer (pos 2));
}

deferred-IsDelivered_example :
    IsDelivered head 2 answer 9 2
      (deferred_run (replicate 2 tick ++ resolved answer ∷ tick ∷ []) (start_deferred head))
    × (extract_usage (obj (field "usage" (usage_json (pos 9) (pos 2)) end))
        ≡ some (record { input_tokens = 9; output_tokens = 2 }))
deferred-IsDelivered_example = deferred-IsDelivered head 2 answer (tick ∷ []) 9 2 refl refl

-- The timer of a stream that was hung up on runs on.
timer_left :
    (deferred_run (hung_up ∷ tick ∷ resolved answer ∷ []) (start_deferred head)).has_timer ≡ true
unfolding deferred_run slices
timer_left = refl
