-- ===== src/Stream/Relay.antt =====
-- src/stream.ts: `meteredRelay` over whole runs.
use prism_control_plane.Prelude.{
  ℕ, ◌≡◌, refl, ap, true, false, List, [], ◌∷◌, ◌++◌, ◌∙◌, arith, append_assoc, append-nil, map,
}
use prism_control_plane.Stream.{
  Termination, Event, chunk, end_of_source, source_failed, client_gone, complete, cancelled, error,
  RelayState, start_relay, settlement_of, relay_step, relay_run, open_stream, is_open,
}
use prism_control_plane.Stream.Scanner.{Platform, push, finish_scan}
use prism_control_plane.Stream.Chunks.{push_all, scan}

-- The events that end a stream, with how they end it.
abbrev pub ends_as : Event → Termination
ends_as (chunk c) = error
ends_as end_of_source = complete
ends_as source_failed = error
ends_as client_gone = cancelled

abbrev pub IsEnd : Event → Type 0
IsEnd (chunk c) = ⊥
IsEnd _ = Unit

-- The bytes that reach the client are those of the chunks, in order.
abbrev pub chunks_of : List (List ℕ) → List Event
chunks_of = map chunk

module _ (p : Platform) where
  settled_step :
      (e : Event) (r : RelayState p)
      → r.settled ≡ true
      → ((relay_step p e r).settled ≡ true) × ((relay_step p e r).settlements ≡ r.settlements)
  unfolding relay_step
  settled_step (chunk c) r h = ground arith
  settled_step end_of_source r h = ground arith
  settled_step source_failed r h = ground arith
  settled_step client_gone r h = ground arith

  pub settled_run :
      (es : List Event) (r : RelayState p)
      → r.settled ≡ true
      → (relay_run p es r).settlements ≡ r.settlements
  unfolding relay_run
  settled_run [] r h = refl
  settled_run (e ∷ es) r h =
      let (s, same) = settled_step e r h in settled_run es (relay_step p e r) s ∙ same

  -- The state of a relay after chunks.
  abbrev relaying : List (List ℕ) → RelayState p → RelayState p
  relaying cs r = record r { scanner = push_all p cs r.scanner; relayed = r.relayed ++ cs }

  chunk_step :
      (c : List ℕ) (r : RelayState p)
      → r.status ≡ open_stream
      → relay_step p (chunk c) r
        ≡ record r { scanner = push p c r.scanner; relayed = r.relayed ++ c ∷ [] }
  unfolding relay_step
  chunk_step c r h = ground arith

  chunks_run :
      (cs : List (List ℕ)) (es : List Event) (r : RelayState p)
      → r.status ≡ open_stream
      → relay_run p (chunks_of cs ++ es) r ≡ relay_run p es (relaying cs r)
  unfolding relay_run push_all
  chunks_run [] es r h = rw (append-nil r.relayed)
  chunks_run (c ∷ cs) es r h =
      let next = record r { scanner = push p c r.scanner; relayed = r.relayed ++ c ∷ [] } in
      ap (relay_run p (chunks_of cs ++ es)) (chunk_step c r h)
      ∙ chunks_run cs es next h
      ∙ rw (append_assoc r.relayed (c ∷ []) cs)

  end_step :
      (e : Event) (r : RelayState p)
      → IsEnd e
      → r.status ≡ open_stream
      → r.settled ≡ false
      → ((relay_step p e r).settled ≡ true)
        × (is_open (relay_step p e r).status ≡ false)
        × ((relay_step p e r).relayed ≡ r.relayed)
        × ((relay_step p e r).settlements
            ≡ r.settlements ++ settlement_of p (finish_scan p r.scanner) (ends_as e) ∷ [])
  unfolding relay_step
  end_step (chunk c) r i h k = elim i [ ]
  end_step end_of_source r i h k = ground arith
  end_step source_failed r i h k = ground arith
  end_step client_gone r i h k = ground arith

  closed_step :
      (e : Event) (r : RelayState p)
      → is_open r.status ≡ false
      → (is_open (relay_step p e r).status ≡ false) × ((relay_step p e r).relayed ≡ r.relayed)
  unfolding relay_step
  closed_step (chunk c) r h = ground arith
  closed_step end_of_source r h = ground arith
  closed_step source_failed r h = ground arith
  closed_step client_gone r h = ground arith

  closed_run :
      (es : List Event) (r : RelayState p)
      → is_open r.status ≡ false
      → (relay_run p es r).relayed ≡ r.relayed
  unfolding relay_run
  closed_run [] r h = refl
  closed_run (e ∷ es) r h =
      let (s, same) = closed_step e r h in closed_run es (relay_step p e r) s ∙ same

-- However a stream ends, by its own end, by a failure of the source or by the client hanging up, and
-- whatever happens after that, `settle` is called exactly once, with how the stream ended and with
-- what a scan of the chunks before the end sees; and what the client got is those chunks, unchanged
-- and in order.
pub relay_run-chunks :
    (p : Platform) (cs : List (List ℕ)) (e : Event) (rest : List Event)
    → IsEnd e
    → ((relay_run p (chunks_of cs ++ e ∷ rest) (start_relay p)).settlements
        ≡ settlement_of p (scan p cs) (ends_as e) ∷ [])
      × ((relay_run p (chunks_of cs ++ e ∷ rest) (start_relay p)).relayed ≡ cs)
unfolding relay_run scan
relay_run-chunks p cs e rest i =
    let r = relaying p cs (start_relay p) in
    let (settled, shut, relayed, settlements) = end_step p e r i refl refl in
    rw (chunks_run p cs (e ∷ rest) (start_relay p) refl) (
      settled_run p rest (relay_step p e r) settled ∙ settlements,
      closed_run p rest (relay_step p e r) shut ∙ relayed,
    )
