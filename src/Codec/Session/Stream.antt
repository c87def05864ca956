-- ===== src/Codec/Session/Stream.antt =====
-- A session that encodes batches of ops, and another that decodes the frames in their order, as the
-- server and a client of a room do.
use bungohan.Base.{
  ℕ, ◌<◌, ◌≡◌, refl, sym, ap, ap₂, subst, ◌∙◌, Option, none, some, List, [], ◌∷◌, length, arith,
}
use bungohan.Codec.Tables.{Tables}
use bungohan.Codec.Platform.{Platform, IsPlatform}
use bungohan.Codec.Ops.{WireOp}
use bungohan.Codec.Encoder.{Sink, encode_ops}
use bungohan.Codec.Encoder.Rollback.{SameTables}
use bungohan.Codec.Decoder.{decode_ops}
use bungohan.Codec.Decoder.Sent.{AreSendable, sent_ops}
use bungohan.Codec.Decoder.RoundTrip.{decode_ops-encode_ops, encode_ops_there}

-- All the frames, where each is there.
abbrev and_frames : Option (List ℕ) → Option (List (List ℕ)) → Option (List (List ℕ))
and_frames (some frame) (some frames) = some (frame ∷ frames)
and_frames a b = none

module _ {F : Type 0} (p : Platform F) where
  unfoldable pub encode_batches : Sink → List (List (WireOp F)) → Sink × Option (List (List ℕ))
  encode_batches s [] = (s, some [])
  encode_batches s (ops ∷ batches) =
      let (s', frame) = encode_ops p s ops in
      let (s'', frames) = encode_batches s' batches in (s'', and_frames frame frames)

  pub decode_frames : Tables → List (List ℕ) → Tables × List (Option (List (WireOp F)))
  decode_frames t [] = (t, [])
  decode_frames t (frame ∷ frames) =
      let (t', ops) = decode_ops p t frame in
      let (t'', rest) = decode_frames t' frames in (t'', ops ∷ rest)

  -- What the batches are behind the wire.
  pub sent_batches : Sink → List (List (WireOp F)) → List (Option (List (WireOp F)))
  sent_batches s [] = []
  sent_batches s (ops ∷ batches) =
      some (sent_ops p s ops) ∷ sent_batches (encode_ops p s ops).0 batches

  abbrev AllSendable : List (List (WireOp F)) → Type 0
  AllSendable [] = Unit
  AllSendable (ops ∷ batches) = AreSendable p ops × AllSendable batches

both_there :
    (a : Option (List ℕ)) (b : Option (List (List ℕ))) (frames : List (List ℕ))
    → and_frames a b ≡ some frames
    → (frame : List ℕ) × (rest : List (List ℕ)) × (a ≡ some frame)
      × (b ≡ some rest)
      × (frame ∷ rest ≡ frames)
both_there none b frames e = absurd (ground (arith, e))
both_there (some frame) none frames e = absurd (ground (arith, e))
both_there (some frame) (some rest) frames e = (
  frame,
  rest,
  refl,
  refl,
  ap (λ (o : Option (List (List ℕ))). elim o [ none ↦ [] | some x ↦ x ]) e,
)

same_tables : (t : Tables) → SameTables t t
same_tables t = record { classes = refl; layouts = refl; targets = refl }

module _ {F : Type 0} (p : Platform F) (encode : List ℕ → List ℕ) (l : IsPlatform p encode) where
  -- What arrives of frames, with the tables of the two sessions behind them.
  abbrev Arrived : Sink → Tables → List (List (WireOp F)) → List (List ℕ) → Type 0
  Arrived s t batches frames =
      ((decode_frames p t frames).1 ≡ sent_batches p s batches)
      × SameTables (encode_batches p s batches).0.tables (decode_frames p t frames).0

  one_more :
      (s : Sink) (t : Tables) (ops : List (WireOp F)) (batches : List (List (WireOp F)))
      (frame : List ℕ) (frames : List (List ℕ))
      → decode_ops p t frame ≡ ((encode_ops p s ops).0.tables, some (sent_ops p s ops))
      → Arrived (encode_ops p s ops).0 (encode_ops p s ops).0.tables batches frames
      → Arrived s t (ops ∷ batches) (frame ∷ frames)
  unfolding decode_frames encode_batches sent_batches
  one_more s t ops batches frame frames e (same, tables) = (
    ap₂ (λ (x : Tables × Option (List (WireOp F))) rest. x.1 ∷ rest) e
        (ap (λ (x : Tables × Option (List (WireOp F))). (decode_frames p x.0 frames).1) e ∙ same),
    subst
        (λ (x : Tables × Option (List (WireOp F))).
          SameTables (encode_batches p (encode_ops p s ops).0 batches).0.tables
            (decode_frames p x.0 frames).0)
        (sym e) tables,
  )

  -- On a platform whose `DataView` and text encoders do as documented, where a session whose writer
  -- has a buffer that is not empty encodes batches of ops, each of which it can encode, with texts,
  -- class ids and numbers of fields as `AllSendable` says, a session that had the same classes,
  -- layouts and targets decodes the frames, in their order, to these ops, as the wire leaves their
  -- values, and the two have the same classes, layouts and targets then.
  pub decode_frames-encode_batches :
      (s : Sink) (t : Tables) (batches : List (List (WireOp F))) (frames : List (List ℕ))
      → SameTables s.tables t
      → 0 < length s.out.bytes
      → AllSendable p batches
      → (encode_batches p s batches).1 ≡ some frames
      → ((decode_frames p t frames).1 ≡ sent_batches p s batches)
        × SameTables (encode_batches p s batches).0.tables (decode_frames p t frames).0
  unfolding encode_batches decode_frames sent_batches
  decode_frames-encode_batches s t [] frames same h sendable e =
      subst (Arrived s t [])
        (ap (λ (o : Option (List (List ℕ))). elim o [ none ↦ [] | some x ↦ x ]) e) (refl, same)
  decode_frames-encode_batches s t (ops ∷ batches) frames same h sendable e =
      let s' = (encode_ops p s ops).0 in
      let (frame, rest, first, others, all) =
        both_there (encode_ops p s ops).1 (encode_batches p s' batches).1 frames e in
      let there = encode_ops_there p encode l s ops frame h sendable.0 first in
      subst (Arrived s t (ops ∷ batches)) all (
        one_more s t ops batches frame rest
          (decode_ops-encode_ops p encode l s t ops frame same h sendable.0 first)
          (decode_frames-encode_batches s' s'.tables batches rest (same_tables s'.tables) there
            sendable.1 others))
