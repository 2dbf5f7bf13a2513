-- ===== src/Vfs/Storage/Bytes.antt =====
-- The bytes of a file after a write at an offset or a change of size, in
-- crates/eryx-vfs/src/storage.rs, against the picture of a file as zeros from its end on.
use eryx.Prelude.{
  drop_all, ℕ, zero, suc, ◌+◌, ◌-◌, ◌^◌, ◌<◌, ◌≤◌, min, max, ◌≡◌, refl, ap, ◌∙◌, ◌&&◌, [], ◌∷◌,
  ◌++◌, ltb, leb, length, take, drop, resize, replicate, length-append, length-take, length-drop,
  length-replicate, if◌then◌else◌, arith, ok,
}
use eryx.Prelude.Text.{Text}
use eryx.Vfs.Storage.{Outcome, extend, overwrite, read_content}

-- Zero from the end on.
abbrev pub byte_at : Text → ℕ → ℕ
byte_at [] i = 0
byte_at (b ∷ bs) zero = b
byte_at (b ∷ bs) (suc i) = byte_at bs i

pub byte_at_out : (xs : Text) (i : ℕ) → length xs ≤ i → byte_at xs i ≡ 0
byte_at_out [] i h = refl
byte_at_out (x ∷ xs) zero h = absurd (omega arith)
byte_at_out (x ∷ xs) (suc i) h = byte_at_out xs i (omega arith)

pub byte_at-append :
    (xs ys : Text) (i : ℕ)
    → byte_at (xs ++ ys) i
      ≡ (if ltb i (length xs) then byte_at xs i else byte_at ys (i - length xs))
byte_at-append [] ys i = ground arith
byte_at-append (x ∷ xs) ys zero = ground arith
byte_at-append (x ∷ xs) ys (suc i) = ground (arith, byte_at-append xs ys i)

byte_at-take :
    (n : ℕ) (xs : Text) (i : ℕ) → byte_at (take n xs) i ≡ (if ltb i n then byte_at xs i else 0)
byte_at-take zero xs i = ground arith
byte_at-take (suc n) [] i = ground arith
byte_at-take (suc n) (x ∷ xs) zero = ground arith
byte_at-take (suc n) (x ∷ xs) (suc i) = ground (arith, byte_at-take n xs i)

pub byte_at-drop : (n : ℕ) (xs : Text) (i : ℕ) → byte_at (drop n xs) i ≡ byte_at xs (n + i)
byte_at-drop zero xs i = ap (byte_at xs) (omega arith)
byte_at-drop (suc n) [] i = refl
byte_at-drop (suc n) (x ∷ xs) i = byte_at-drop n xs i ∙ ground arith

byte_at-replicate : (n i : ℕ) → byte_at (replicate n 0) i ≡ 0
byte_at-replicate zero i = refl
byte_at-replicate (suc n) zero = refl
byte_at-replicate (suc n) (suc i) = byte_at-replicate n i

pub byte_at_ext :
    (xs ys : Text) → length xs ≡ length ys → ((i : ℕ) → byte_at xs i ≡ byte_at ys i) → xs ≡ ys
byte_at_ext [] [] e h = refl
byte_at_ext [] (y ∷ ys) e h = absurd (omega arith)
byte_at_ext (x ∷ xs) [] e h = absurd (omega arith)
byte_at_ext (x ∷ xs) (y ∷ ys) e h =
    ground (arith, h 0, byte_at_ext xs ys (omega arith) (λ i. h (suc i)))

pub length-resize : (xs : Text) (n : ℕ) → length (resize xs n 0) ≡ n
length-resize xs n = omega (
  arith,
  length-append (take n xs) (replicate (n - length xs) 0),
  length-take n xs,
  length-replicate (n - length xs) (zero),
)

-- `resize` keeps the bytes below the new size.
pub byte_at-resize :
    (xs : Text) (n i : ℕ) → byte_at (resize xs n 0) i ≡ (if ltb i n then byte_at xs i else 0)
byte_at-resize xs n i = ground (
  arith,
  byte_at-append (take n xs) (replicate (n - length xs) 0) i,
  length-take n xs,
  byte_at-take n xs i,
  byte_at-replicate (n - length xs) (i - length (take n xs)),
  byte_at_out xs i,
)

length-extend : (xs : Text) (n : ℕ) → length (extend xs n) ≡ max (length xs) n
unfolding extend
length-extend xs n = ground (arith, length-resize xs n)

byte_at-extend : (xs : Text) (n i : ℕ) → byte_at (extend xs n) i ≡ byte_at xs i
unfolding extend
byte_at-extend xs n i = ground (arith, byte_at-resize xs n i, byte_at_out xs i)

module _ (xs bytes : Text) (offset : ℕ) where
  abbrev pub written : Text
  written = overwrite (extend xs (offset + length bytes)) offset (offset + length bytes) bytes

  pub length-written : length written ≡ max (length xs) (offset + length bytes)
  unfolding overwrite
  length-written =
      let all = extend xs (offset + length bytes) in
      omega (
        arith,
        length-append (take offset all) (bytes ++ drop (offset + length bytes) all),
        length-append bytes (drop (offset + length bytes) all),
        length-take offset all,
        length-drop (offset + length bytes) all,
        length-extend xs (offset + length bytes),
      )

  -- The new bytes in their range, and elsewhere the old ones.
  pub byte_at-written :
      (i : ℕ)
      → byte_at written i ≡ (
          if leb offset i && ltb i (offset + length bytes)
          then byte_at bytes (i - offset)
          else byte_at xs i)
  unfolding overwrite
  byte_at-written i =
      let all = extend xs (offset + length bytes) in
      let tail = drop (offset + length bytes) all in
      ground (
        arith,
        byte_at-append (take offset all) (bytes ++ tail) i,
        byte_at-append bytes tail (i - length (take offset all)),
        length-take offset all,
        byte_at-take offset all i,
        length-extend xs (offset + length bytes),
        byte_at-drop (offset + length bytes) all (i - length (take offset all) - length bytes),
        byte_at-extend xs (offset + length bytes) i,
      )

take_empty : (n : ℕ) → take {A = ℕ} n [] ≡ []
take_empty zero = refl
take_empty (suc n) = refl

drop-take_step :
    (n k x : ℕ) (xs : Text)
    → drop n (take (n + k) xs) ≡ take k (drop n xs)
    → drop (suc n) (take (suc n + k) (x ∷ xs)) ≡ take k (drop n xs)
drop-take_step n k x xs h = let e : suc n + k ≡ suc (n + k) = omega arith in rw e h

drop-take : (n k : ℕ) (xs : Text) → drop n (take (n + k) xs) ≡ take k (drop n xs)
drop-take zero k xs = ap (λ j. take j xs) (omega arith)
drop-take (suc n) k [] = rw (take_empty (suc n + k), take_empty k)
drop-take (suc n) k (x ∷ xs) = drop-take_step n k x xs (drop-take n k xs)

take-min : (n : ℕ) (xs : Text) → take (min n (length xs)) xs ≡ take n xs
take-min zero xs = let e : min 0 (length xs) ≡ 0 = omega arith in rw e
take-min (suc n) [] = take_empty (min (suc n) 0)
take-min (suc n) (x ∷ xs) =
    let e : min (suc n) (suc (length xs)) ≡ suc (min n (length xs)) = omega arith in
    rw e (ap (◌∷◌ x) (take-min n xs))

-- A read within the machine's range returns the bytes from `offset` on, at most `len` of them.
pub read_content_lem :
    (xs : Text) (offset len : ℕ)
    → offset + len < 2 ^ 64
    → read_content xs offset len ≡ Outcome.returns (ok (take len (drop offset xs)))
unfolding read_content
read_content_lem xs offset len h =
    ground (
      arith,
      drop-take offset len xs,
      drop_all offset xs,
      take-min (offset + len) xs,
      take_empty len,
    )

-- One whose end wraps panics, where there is something to read.
pub read_content_wraps :
    (xs : Text) (offset len : ℕ)
    → offset < length xs
    → offset < 2 ^ 64
    → len < 2 ^ 64
    → 2 ^ 64 ≤ offset + len
    → read_content xs offset len ≡ Outcome.panics
unfolding read_content
read_content_wraps xs offset len a b c d = ground arith

take-append : (xs ys : Text) → take (length xs) (xs ++ ys) ≡ xs
take-append [] ys = refl
take-append (x ∷ xs) ys = ap (◌∷◌ x) (take-append xs ys)

drop-append : (n : ℕ) (xs ys : Text) → n ≤ length xs → drop n (take n xs ++ ys) ≡ ys
drop-append zero xs ys h = refl
drop-append (suc n) [] ys h = absurd (omega arith)
drop-append (suc n) (x ∷ xs) ys h = drop-append n xs ys (omega arith)

-- What was written is what is read back.
pub read_content-written :
    (xs bytes : Text) (offset : ℕ)
    → offset + length bytes < 2 ^ 64
    → read_content (written xs bytes offset) offset (length bytes) ≡ Outcome.returns (ok bytes)
unfolding overwrite
read_content-written xs bytes offset h =
    let all = extend xs (offset + length bytes) in
    let tail = drop (offset + length bytes) all in
    rw (
      read_content_lem (written xs bytes offset) offset (length bytes) h,
      drop-append offset all (bytes ++ tail)
          (omega (arith, length-extend xs (offset + length bytes))),
      take-append bytes tail,
    )
