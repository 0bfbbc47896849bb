-- ===== src/Stream.antt =====
-- src/stream.ts: metering a stream that is being relayed. Texts are lists of code points. The
-- platform's `TextDecoder` and `JSON.parse` are arguments: the decoder as its state and what it
-- gives for the next bytes, and at the end.
pub mod Scanner
pub mod Chunks
pub mod Relay
mod Tests
use prism_control_plane.Prelude.{
  ℕ, ◌+◌, Bool, true, false, String, Option, none, some, List, [], ◌∷◌, ◌++◌, if◌then◌else◌,
}
use prism_control_plane.Stream.Scanner.{Platform, Seen, ScannerState, fresh, push, finish_scan}
use prism_control_plane.Prelude.Json.{Json}

pub data Termination : Type 0 where
  complete cancelled error : Termination

-- `StreamSettlement`
pub record StreamSettlement : Type 0 where
  pub usage : Option Json
  pub saw_frames : Bool
  pub termination : Termination
  pub output_text_bytes : ℕ

-- How the stream to the client stands.
pub data Status : Type 0 where
  open_stream closed errored hung_up : Status

abbrev pub is_open : Status → Bool
is_open open_stream = true
is_open _ = false

-- What happens to a relay: a read of the source answers, or the client hangs up. A read that was
-- under way may still answer after the client has gone.
pub data Event : Type 0 where
  chunk : List ℕ → Event
  end_of_source source_failed client_gone : Event

module _ (p : Platform) where
  -- The variables of `meteredRelay`, the calls of `settle`, and what has been enqueued.
  pub record RelayState : Type 0 where
    pub scanner : ScannerState p
    pub settled : Bool
    pub settlements : List StreamSettlement
    pub relayed : List (List ℕ)
    pub status : Status

  abbrev pub start_relay : RelayState
  start_relay = record {
    scanner = fresh p;
    settled = false;
    settlements = [];
    relayed = [];
    status = open_stream;
  }

  abbrev pub settlement_of : Seen → Termination → StreamSettlement
  settlement_of seen termination = record {
    usage = seen.last_usage;
    saw_frames = seen.saw_any_frame;
    termination = termination;
    output_text_bytes = seen.output_bytes;
  }

  -- `settleOnce`
  abbrev pub settle_once : Termination → RelayState → RelayState
  settle_once termination r = if r.settled then r else record r {
    settled = true;
    settlements = r.settlements ++ settlement_of (finish_scan p r.scanner) termination ∷ [];
  }

  -- Enqueueing on a stream that is not open throws, and so does closing it: both end in the `catch`.
  unfoldable pub relay_step : Event → RelayState → RelayState
  unfolding push finish_scan
  relay_step (chunk bytes) r =
      let pushed = record r { scanner = push p bytes r.scanner } in
      if is_open r.status
      then record pushed { relayed = r.relayed ++ bytes ∷ [] }
      else settle_once error pushed
  relay_step end_of_source r =
      let s = settle_once complete r in
      if is_open r.status then record s { status = closed } else settle_once error s
  relay_step source_failed r =
      let s = settle_once error r in if is_open r.status then record s { status = errored } else s
  relay_step client_gone r =
      let s = settle_once cancelled r in
      if is_open r.status then record s { status = hung_up } else s

  -- `meteredRelay`, over all that happens to it.
  unfoldable pub relay_run : List Event → RelayState → RelayState
  unfolding relay_step
  relay_run [] r = r
  relay_run (e ∷ es) r = relay_run es (relay_step e r)
