-- ===== src/Groth16/Slices.antt =====
-- Reading a part of joined bytes.
use zkredit.Prelude.{
  ℕ, zero, suc, ◌+◌, ◌*◌, ◌<◌, ◌≡◌, All, sym, ap, ◌∙◌, List, [], ◌∷◌, ◌++◌, length, drop, get_elem?,
  length-append, take-append, arith,
}
use zkredit.Host.{returned, slice, expect}
use zkredit.IdentityProof.{concat}

get_elem?-skip : (xs ys : List ℕ) (i : ℕ) → get_elem? (xs ++ ys) (length xs + i) ≡ get_elem? ys i
get_elem?-skip [] ys i = let e : 0 + i ≡ i = omega arith in ap (get_elem? ys) e
get_elem?-skip (x ∷ xs) ys i =
    let e : suc (length xs) + i ≡ suc (length xs + i) = omega arith in
    ap (get_elem? (x ∷ (xs ++ ys))) e ∙ get_elem?-skip xs ys i

drop-skip : (xs ys : List ℕ) (i : ℕ) → drop (length xs + i) (xs ++ ys) ≡ drop i ys
drop-skip [] ys i = let e : 0 + i ≡ i = omega arith in ap (λ j. drop j ys) e
drop-skip (x ∷ xs) ys i =
    let e : suc (length xs) + i ≡ suc (length xs + i) = omega arith in
    ap (λ j. drop j (x ∷ (xs ++ ys))) e ∙ drop-skip xs ys i

pub get_skipped :
    (xs ys : List ℕ) (k i : ℕ) → length xs ≡ k → get_elem? (xs ++ ys) (k + i) ≡ get_elem? ys i
get_skipped xs ys k i e = rw (← e) (get_elem?-skip xs ys i)

-- What stands in front is skipped by its length.
pub slice_skipped :
    (xs ys : List ℕ) (k offset size : ℕ)
    → length xs ≡ k
    → slice (k + offset) size (xs ++ ys) ≡ slice offset size ys
unfolding slice
slice_skipped xs ys k offset size e = ground (arith, e, length-append xs ys, drop-skip xs ys offset)

pub slice_first :
    (xs ys : List ℕ) (size : ℕ) → length xs ≡ size → slice 0 size (xs ++ ys) ≡ returned xs
unfolding slice
slice_first xs ys size e = ground (arith, e, length-append xs ys, take-append xs ys)

-- A part stands behind all that is in front of it.
pub slice_middle :
    (xs ys zs : List ℕ) (k size : ℕ)
    → length xs ≡ k
    → length ys ≡ size
    → slice k size (xs ++ (ys ++ zs)) ≡ returned ys
slice_middle xs ys zs k size ex ey =
    let e : k + 0 ≡ k = omega arith in
    ap (λ o. slice o size (xs ++ (ys ++ zs))) (sym e)
    ∙ slice_skipped xs (ys ++ zs) k 0 size ex
    ∙ slice_first ys zs size ey

-- Parts of one size stand at the multiples of it.
pub slice_nth :
    (size : ℕ) (parts : List (List ℕ)) (i : ℕ)
    → All (λ part. length part ≡ size) parts
    → i < length parts
    → slice (size * i) size (concat parts) ≡ expect (get_elem? parts i)
unfolding concat
slice_nth size [] i sizes below = absurd (omega (arith, below))
slice_nth size (part ∷ parts) zero (e, sizes) below =
    let start : size * 0 ≡ 0 = omega arith in
    ap (λ o. slice o size (part ++ concat parts)) start ∙ slice_first part (concat parts) size e
slice_nth size (part ∷ parts) (suc i) (e, sizes) below =
    let next : size * suc i ≡ size + size * i = omega arith in
    ap (λ o. slice o size (part ++ concat parts)) next
    ∙ slice_skipped part (concat parts) size (size * i) size e
    ∙ slice_nth size parts i sizes (omega (arith, below))
