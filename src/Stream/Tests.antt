-- ===== src/Stream/Tests.antt =====
-- Tests of src/stream.ts, on a platform that decodes ASCII and reads one fixed frame.
use prism_control_plane.Prelude.{ℕ, ◌≡◌, refl, true, List, [], ◌∷◌, ◌++◌, none, some, if◌then◌else◌}
use prism_control_plane.Prelude.Text.{codes, codes_eq}
use prism_control_plane.Prelude.Json.{str, obj, end, field}
use prism_control_plane.Stream.{
  end_of_source, client_gone, cancelled, start_relay, settlement_of, relay_run,
}
use prism_control_plane.Stream.Scanner.{Platform, finish_scan, push}
use prism_control_plane.Stream.Chunks.{Streams, scan, scan-concat}
use prism_control_plane.Stream.Relay.{chunks_of, relay_run-chunks}

abbrev frame : List ℕ
frame = codes "{\"usage\":7}"

abbrev ascii : Platform
ascii = record {
  Decoder = Unit {0};
  initial = tt;
  decode = λ c d. (d, c);
  flush = λ d. [];
  parse_json = λ s. if codes_eq s frame then some (obj (field "usage" (str "seven") end)) else none;
}

ascii-Streams : Streams ascii
ascii-Streams = record { append = λ a b d. refl; empty = λ d. refl }

abbrev whole : List (List ℕ)
whole = codes "data: {\"usage\":7}\n" ∷ []

abbrev cut : List (List ℕ)
cut = codes "data: {\"us" ∷ codes "age\":7}" ∷ codes "\n" ∷ []

scan-concat_example : scan ascii whole ≡ scan ascii cut
scan-concat_example = scan-concat ascii ascii-Streams whole cut refl

cut_stream :
    scan ascii cut
    ≡ record { last_usage = some (str "seven"); saw_any_frame = true; output_bytes = 0 }
unfolding scan finish_scan push
cut_stream = refl

relay_run-chunks_example :
    ((relay_run ascii
        (chunks_of cut ++ client_gone ∷ end_of_source ∷ [])
        (start_relay ascii)).settlements
      ≡ settlement_of ascii (scan ascii cut) cancelled ∷ [])
    × ((relay_run ascii
          (chunks_of cut ++ client_gone ∷ end_of_source ∷ [])
          (start_relay ascii)).relayed
        ≡ cut)
relay_run-chunks_example = relay_run-chunks ascii cut client_gone (end_of_source ∷ []) tt
