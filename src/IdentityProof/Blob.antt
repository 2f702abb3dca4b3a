-- ===== src/IdentityProof/Blob.antt =====
-- The layout of the proof blob: x and y of A, B and C, the number of public signals, and the
-- signals, all in words of 32 bytes; and the field elements that the circuit is given.
use zkredit.Prelude.{
  ℕ, ◌+◌, ◌*◌, ◌≡◌, String, some, List, [], ◌∷◌, ◌++◌, length, length-append, arith, All,
  All-append, get_elem?,
}
use mathlib.Core.List.{append_assoc, append-nil}
use zkredit.Bytes.{IsByte}
use zkredit.Effects.Sync.{ok, >>=-eq-ok}
use zkredit.IdentityProof.{
  to_be_32, concat, at, g1, g2, FullProof, signal_words, count_bytes, proof_blob,
}
use zkredit.IdentityProof.Words.{to_be_32-shape}

-- A run of `size` bytes.
abbrev pub IsBlock : ℕ → List ℕ → Type 0
IsBlock size bytes = (length bytes ≡ size) × All IsByte bytes

IsBlock-append :
    (m n : ℕ) (xs ys : List ℕ) → IsBlock m xs → IsBlock n ys → IsBlock (m + n) (xs ++ ys)
IsBlock-append m n xs ys (lx, bx) (ly, byy) =
    (omega (arith, length-append xs ys), All-append IsByte xs ys bx byy)

concat-pair : (xs ys : List ℕ) → concat (xs ∷ ys ∷ []) ≡ xs ++ ys
unfolding concat
concat-pair xs ys = rw append-nil

pub g1-shape : (p : List String) (bytes : List ℕ) → g1 p ≡ ok bytes → IsBlock 64 bytes
unfolding g1
g1-shape p bytes h =
    let (xd, _, h1) = >>=-eq-ok (at (some p) 0) _ h in
    let (x, ex, h2) = >>=-eq-ok (to_be_32 xd) _ h1 in
    let (yd, _, h3) = >>=-eq-ok (at (some p) 1) _ h2 in
    let (y, ey, h4) = >>=-eq-ok (to_be_32 yd) _ h3 in
    let same : x ++ y ≡ bytes = ground (arith, concat-pair x y) in
    rw (← same) (IsBlock-append 32 32 x y (to_be_32-shape xd x ex) (to_be_32-shape yd y ey))

concat-four : (a b c d : List ℕ) → concat (a ∷ b ∷ c ∷ d ∷ []) ≡ a ++ (b ++ (c ++ d))
unfolding concat
concat-four a b c d = rw append-nil

pub g2-shape : (p : List (List String)) (bytes : List ℕ) → g2 p ≡ ok bytes → IsBlock 128 bytes
unfolding g2
g2-shape p bytes h =
    let (ad, _, h1) = >>=-eq-ok (at (get_elem? p 0) 1) _ h in
    let (a, ea, h2) = >>=-eq-ok (to_be_32 ad) _ h1 in
    let (bd, _, h3) = >>=-eq-ok (at (get_elem? p 0) 0) _ h2 in
    let (b, eb, h4) = >>=-eq-ok (to_be_32 bd) _ h3 in
    let (cd, _, h5) = >>=-eq-ok (at (get_elem? p 1) 1) _ h4 in
    let (c, ec, h6) = >>=-eq-ok (to_be_32 cd) _ h5 in
    let (dd, _, h7) = >>=-eq-ok (at (get_elem? p 1) 0) _ h6 in
    let (d, ed, h8) = >>=-eq-ok (to_be_32 dd) _ h7 in
    let same : a ++ (b ++ (c ++ d)) ≡ bytes = ground (arith, concat-four a b c d) in
    let low = IsBlock-append 32 32 c d (to_be_32-shape cd c ec) (to_be_32-shape dd d ed) in
    let three = IsBlock-append 32 64 b (c ++ d) (to_be_32-shape bd b eb) low in
    rw (← same) (IsBlock-append 32 96 a (b ++ (c ++ d)) (to_be_32-shape ad a ea) three)

signal_words-shape :
    (signals : List String) (bytes : List ℕ)
    → signal_words signals ≡ ok bytes
    → IsBlock (32 * length signals) bytes
unfolding signal_words
signal_words-shape [] bytes h = let e : [] ≡ bytes = ground arith in rw (← e) (omega arith, tt)
signal_words-shape (s ∷ signals) bytes h =
    let (word, ew, h1) = >>=-eq-ok (to_be_32 s) _ h in
    let (words, es, h2) = >>=-eq-ok (signal_words signals) _ h1 in
    let same : word ++ words ≡ bytes = ground arith in
    let (size, bytes_only) =
      IsBlock-append 32 (32 * length signals) word words (to_be_32-shape s word ew)
        (signal_words-shape signals words es) in
    rw (← same) (omega arith, bytes_only)

-- The parts of a blob.
pub record IsBlob (n : ℕ) (signals blob : List ℕ) : Type 0 where
  pub points : List ℕ
  pub points_block : IsBlock 256 points
  pub signals_block : IsBlock (32 * n) signals
  pub joined : blob ≡ points ++ (count_bytes n ++ signals)

count_bytes-IsBlock : (n : ℕ) → IsBlock 2 (count_bytes n)
count_bytes-IsBlock n = omega arith

pub concat-blob :
    (a b c n s : List ℕ) → concat (a ∷ b ∷ c ∷ n ∷ s ∷ []) ≡ (a ++ (b ++ c)) ++ (n ++ s)
unfolding concat
concat-blob a b c n s = simp (append-nil, append_assoc)

pub proof_blob-IsBlob :
    (p : FullProof) (blob : List ℕ)
    → proof_blob p ≡ ok blob
    → (signals : List ℕ) × (signal_words p.public_signals ≡ ok signals)
      × IsBlob (length p.public_signals) signals blob
unfolding proof_blob
proof_blob-IsBlob p blob h =
    let (a, ea, h1) = >>=-eq-ok (g1 p.pi_a) _ h in
    let (b, eb, h2) = >>=-eq-ok (g2 p.pi_b) _ h1 in
    let (c, ec, h3) = >>=-eq-ok (g1 p.pi_c) _ h2 in
    let (signals, es, h4) = >>=-eq-ok (signal_words p.public_signals) _ h3 in
    let n = length p.public_signals in
    let tail = IsBlock-append 128 64 b c (g2-shape p.pi_b b eb) (g1-shape p.pi_c c ec) in
    (
      signals,
      es,
      record {
        points = a ++ (b ++ c);
        points_block = IsBlock-append 64 192 a (b ++ c) (g1-shape p.pi_a a ea) tail;
        signals_block = signal_words-shape p.public_signals signals es;
        joined = ground (arith, concat-blob a b c (count_bytes n) signals);
      },
    )
