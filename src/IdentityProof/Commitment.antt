-- ===== src/IdentityProof/Commitment.antt =====
-- What `proveIdentity` hands over: the size of the blob, and the commitment as text and as bytes.
use zkredit.Prelude.{
  ℕ, ◌+◌, ◌*◌, ◌≡◌, sym, ap, String, some, List, [], ◌∷◌, ◌++◌, length, length-append, take, drop,
  take-append, drop-append, arith, All-append,
}
use mathlib.Core.List.{append_assoc}
use zkredit.Bytes.{IsByte, to_hex, from_hex}
use zkredit.Bytes.RoundTrip.{from_hex-to_hex}
use zkredit.Effects.Sync.{ok, >>=-eq-ok}
use zkredit.IdentityProof.{
  to_be_32, FullProof, IdentityProof, signal_words, count_bytes, proof_blob, assemble, first_signal,
}
use zkredit.IdentityProof.Words.{to_be_32-shape}
use zkredit.IdentityProof.Blob.{IsBlock, IsBlob, proof_blob-IsBlob}

first_signal-eq-ok :
    (signals : List String) (s : String)
    → first_signal signals ≡ ok s
    → (more : List String) × (signals ≡ s ∷ more)
first_signal-eq-ok [] s h = cc
first_signal-eq-ok (t ∷ more) s h = (more, ground arith)

signal_words-cons :
    (s : String) (more : List String) (words : List ℕ)
    → signal_words (s ∷ more) ≡ ok words
    → (word : List ℕ) × (rest : List ℕ) × (to_be_32 s ≡ ok word) × (words ≡ word ++ rest)
unfolding signal_words
signal_words-cons s more words h =
    let (word, e, h1) = >>=-eq-ok (to_be_32 s) _ h in
    let (rest, _, h2) = >>=-eq-ok (signal_words more) _ h1 in (word, rest, e, ground arith)

-- The blob at the places where the contract reads it.
module _ {n : ℕ} {signals blob : List ℕ} (b : IsBlob n signals blob) where
  IsBlob-size : IsBlock (258 + 32 * n) blob
  IsBlob-size = rw b.joined (
    omega (
      arith,
      length-append b.points (count_bytes n ++ signals),
      b.points_block.0,
      b.signals_block.0,
    ),
    All-append IsByte b.points (count_bytes n ++ signals) b.points_block.1
        (All-append IsByte (count_bytes n) signals (omega arith) b.signals_block.1),
  )

  IsBlob-signals : drop 258 blob ≡ signals
  IsBlob-signals =
      let front = b.points ++ count_bytes n in
      let size : length front ≡ 258 =
        omega (arith, length-append b.points (count_bytes n), b.points_block.0) in
      let dropped : drop (length front) (front ++ signals) ≡ signals = drop-append front signals in
      rw (b.joined, ← append_assoc) (rw size at dropped)

  IsBlob-count : take 2 (drop 256 blob) ≡ count_bytes n
  IsBlob-count =
      let dropped : drop (length b.points) (b.points ++ (count_bytes n ++ signals))
          ≡ count_bytes n ++ signals =
        drop-append b.points (count_bytes n ++ signals) in
      rw b.joined (rw (rw b.points_block.0 at dropped))

-- The inverse of `assemble`: what is in its result.
module _ (secret : String) (p : FullProof) (r : IdentityProof) (h : assemble secret p ≡ ok r) where
  assemble-parts :
      (s : String) × (more : List String) × (signals : List ℕ) × (word : List ℕ) × (p.public_signals
        ≡ s ∷ more)
      × (signal_words p.public_signals ≡ ok signals)
      × IsBlob (length p.public_signals) signals r.proof_bytes
      × (to_be_32 s ≡ ok word)
      × (r.commitment_hex ≡ to_hex word)
      × (r.secret_dec ≡ secret)
  unfolding assemble
  assemble-parts =
      let (s, e1, h1) = >>=-eq-ok (first_signal p.public_signals) _ h in
      let (blob, e2, h2) = >>=-eq-ok (proof_blob p) _ h1 in
      let (word, e3, h3) = >>=-eq-ok (to_be_32 s) _ h2 in
      let (more, split) = first_signal-eq-ok p.public_signals s e1 in
      let (signals, es, layout) = proof_blob-IsBlob p blob e2 in
      let same : blob ≡ r.proof_bytes = ground arith in
      (s, more, signals, word, split, es, rw (← same) layout, e3, ground arith, ground arith)

  -- When an identity proof is assembled, its blob consists of 258 + 32 n bytes for n public
  -- signals: behind 256 bytes of points stand two bytes with n, then the words of the signals; and
  -- the secret is the one given.
  pub assemble-layout :
      IsBlock (258 + 32 * length p.public_signals) r.proof_bytes
      × (take 2 (drop 256 r.proof_bytes) ≡ count_bytes (length p.public_signals))
      × (signal_words p.public_signals ≡ ok (drop 258 r.proof_bytes))
      × (r.secret_dec ≡ secret)
  assemble-layout =
      let (s, more, signals, word, split, es, layout, e, hex, kept) = assemble-parts in
      (IsBlob-size layout, IsBlob-count layout, rw (IsBlob-signals layout) es, kept)

  -- When an identity proof is assembled, its commitment text decodes to the 32 bytes behind the
  -- header of its blob, which is the proof's first public signal there.
  pub assemble-commitment : from_hex r.commitment_hex ≡ some (take 32 (drop 258 r.proof_bytes))
  assemble-commitment =
      let (s, more, signals, word, split, es, layout, e, hex, kept) = assemble-parts in
      let (word', rest, e', front) = signal_words-cons s more signals (rw split at es) in
      let same : word' ≡ word = ground arith in
      let (size, bytes_only) = to_be_32-shape s word e in
      let taken : take (length word) (word ++ rest) ≡ word = take-append word rest in
      rw (hex, from_hex-to_hex word bytes_only, IsBlob-signals layout, front, same)
        (ap some (sym (rw size at taken)))

  pub assemble-commitment_size : length (take 32 (drop 258 r.proof_bytes)) ≡ 32
  assemble-commitment_size =
      let (s, more, signals, word, split, es, layout, e, hex, kept) = assemble-parts in
      let (word', rest, e', front) = signal_words-cons s more signals (rw split at es) in
      let (size, _) = to_be_32-shape s word' e' in
      let taken : take (length word') (word' ++ rest) ≡ word' = take-append word' rest in
      rw (IsBlob-signals layout, front, rw size at taken) size
