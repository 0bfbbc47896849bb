-- ===== src/Stream/Chunks.antt =====
-- How a stream is cut into chunks does not matter to the scanner of src/stream.ts.
use prism_control_plane.Prelude.{
  ℕ, ◌≡◌, ◌≢◌, refl, sym, ap, ◌∙◌, false, List, [], ◌∷◌, ◌++◌, arith, All, All-append, append_assoc,
  append-nil, inl, inr, Bool-cases, if◌then◌else◌, ◌==◌,
}
use prism_control_plane.Prelude.Text.{split}
use prism_control_plane.Stream.Scanner.{
  Platform, Seen, ScannerState, consume_line, consume_lines, fresh, push, finish_scan,
}

-- The documented behaviour of a streaming decoder: bytes decoded in two parts give the text of both,
-- and no bytes give no text.
pub record Streams (p : Platform) : Type 0 where
  pub append :
      (a b : List ℕ) (d : p.Decoder)
      → p.decode (a ++ b) d
        ≡ ((p.decode b (p.decode a d).0).0, (p.decode a d).1 ++ (p.decode b (p.decode a d).0).1)
  pub empty : (d : p.Decoder) → p.decode [] d ≡ (d, [])

-- The scan of a whole stream.
unfoldable pub push_all : (p : Platform) → List (List ℕ) → ScannerState p → ScannerState p
push_all p [] s = s
push_all p (c ∷ cs) s = push_all p cs (push p c s)

unfoldable pub scan : (p : Platform) → List (List ℕ) → Seen
unfolding push_all
scan p chunks = finish_scan p (push_all p chunks (fresh p))

abbrev pub concat : List (List ℕ) → List ℕ
concat [] = []
concat (c ∷ cs) = c ++ concat cs

-- No line feed in a text.
abbrev NoFeed : List ℕ → Type 0
NoFeed = All (λ c. c ≢ b'\n')

module _ (p : Platform) where
  -- The scanner character by character.
  feed : List ℕ → List ℕ → Seen → List ℕ × Seen
  feed [] buffer s = (buffer, s)
  feed (c ∷ text) buffer s =
      if c == b'\n' then feed text [] (consume_line p buffer s) else feed text (buffer ++ c ∷ []) s

  feed-append :
      (a b buffer : List ℕ) (s : Seen)
      → feed (a ++ b) buffer s ≡ feed b (feed a buffer s).0 (feed a buffer s).1
  unfolding feed
  feed-append [] b buffer s = refl
  feed-append (c ∷ a) b buffer s = elim (Bool-cases (c == b'\n')) [
    | inl e ↦ rw e (feed-append a b [] (consume_line p buffer s))
    | inr e ↦ rw e (feed-append a b (buffer ++ c ∷ []) s)
  ]

  feed-NoFeed : (text buffer : List ℕ) (s : Seen) → NoFeed buffer → NoFeed (feed text buffer s).0
  unfolding feed
  feed-NoFeed [] buffer s h = h
  feed-NoFeed (c ∷ text) buffer s h = elim (Bool-cases (c == b'\n')) [
    | inl e ↦ rw e (feed-NoFeed text [] (consume_line p buffer s) tt)
    | inr e ↦
        rw e (
          feed-NoFeed text (buffer ++ c ∷ []) s (All-append _ buffer (c ∷ []) h (ground arith, tt)))
  ]

  -- A text in front of the first line.
  abbrev prepend : List ℕ → List (List ℕ) → List (List ℕ)
  prepend buffer [] = buffer ∷ []
  prepend buffer (l ∷ ls) = (buffer ++ l) ∷ ls

  -- A split has at least one piece.
  split-cons : (text : List ℕ) → (l : List ℕ) × (ls : List (List ℕ)) × (split b'\n' text ≡ l ∷ ls)
  unfolding split
  split-cons [] = ([], [], refl)
  split-cons (c ∷ text) =
      let (l, ls, e) = split-cons text in
      elim (Bool-cases (c == b'\n')) [
        | inl f ↦ ([], split b'\n' text, rw f)
        | inr f ↦ (c ∷ l, ls, rw f (rw e))
      ]

  split-prepend :
      (buffer text : List ℕ)
      → NoFeed buffer
      → split b'\n' (buffer ++ text) ≡ prepend buffer (split b'\n' text)
  unfolding split
  split-prepend [] text h = let (l, ls, e) = split-cons text in rw e
  split-prepend (c ∷ buffer) text (n, h) =
      let (l, ls, e) = split-cons text in
      let f : (c == b'\n') ≡ false = ground arith in rw (f, split-prepend buffer text h, e)

  consume_lines-feed :
      (text buffer : List ℕ) (s : Seen)
      → consume_lines p (prepend buffer (split b'\n' text)) s ≡ feed text buffer s
  unfolding feed split
  consume_lines-feed [] buffer s = rw (append-nil buffer)
  consume_lines-feed (c ∷ text) buffer s =
      let (l, ls, e) = split-cons text in
      elim (Bool-cases (c == b'\n')) [
        | inl f ↦ rw f (
            rw e (
              rw (append-nil buffer)
                (rw e at (consume_lines-feed text [] (consume_line p buffer s)))))
        | inr f ↦
            rw (f, e)
              (rw (e, append_assoc buffer (c ∷ []) l) at
                (consume_lines-feed text (buffer ++ c ∷ []) s))
      ]

  -- A scan's state after a text, character by character.
  abbrev fed : p.Decoder × List ℕ → ScannerState p → ScannerState p
  fed (d, text) s = record {
    buffer = (feed text s.buffer s.seen).0;
    decoder = d;
    seen = (feed text s.buffer s.seen).1;
  }

  push-fed :
      (chunk : List ℕ) (s : ScannerState p)
      → NoFeed s.buffer
      → push p chunk s ≡ fed (p.decode chunk s.decoder) s
  unfolding push
  push-fed chunk s h =
      let text = (p.decode chunk s.decoder).1 in
      rw (split-prepend s.buffer text h, consume_lines-feed text s.buffer s.seen)

  push-NoFeed :
      (chunk : List ℕ) (s : ScannerState p) → NoFeed s.buffer → NoFeed (push p chunk s).buffer
  push-NoFeed chunk s h =
      rw (push-fed chunk s h) (feed-NoFeed (p.decode chunk s.decoder).1 s.buffer s.seen h)

  push-append :
      Streams p
      → (a b : List ℕ) (s : ScannerState p) → NoFeed s.buffer
      → push p (a ++ b) s ≡ push p b (push p a s)
  push-append st a b s h =
      let text = (p.decode a s.decoder).1 in
      let after = fed (p.decode a s.decoder) s in
      rw
        (
          push-fed (a ++ b) s h,
          push-fed a s h,
          push-fed b after (feed-NoFeed text s.buffer s.seen h),
          st.append a b s.decoder,
        )
        (rw (feed-append text (p.decode b (p.decode a s.decoder).0).1 s.buffer s.seen))

  push-nil : Streams p → (s : ScannerState p) → NoFeed s.buffer → push p [] s ≡ s
  unfolding feed
  push-nil st s h = rw (push-fed [] s h, st.empty s.decoder)

  push_all-concat :
      Streams p
      → (cs : List (List ℕ)) (s : ScannerState p) → NoFeed s.buffer
      → push_all p cs s ≡ push p (concat cs) s
  unfolding push_all
  push_all-concat st [] s h = sym (push-nil st s h)
  push_all-concat st (c ∷ cs) s h =
      push_all-concat st cs (push p c s) (push-NoFeed c s h)
      ∙ sym (push-append st c (concat cs) s h)

-- How a stream is cut into chunks does not matter: if the bytes of two sequences of chunks are the
-- same, the scanner has seen the same at the end, for every decoder that decodes bytes in two parts
-- as it decodes them at once. So a frame split over two chunks is read like one that is whole.
pub scan-concat :
    (p : Platform)
    → Streams p
    → (cs ds : List (List ℕ)) → concat cs ≡ concat ds
    → scan p cs ≡ scan p ds
unfolding scan
scan-concat p st cs ds h =
    ap (finish_scan p)
      (rw (push_all-concat p st cs (fresh p) tt, push_all-concat p st ds (fresh p) tt, h))
