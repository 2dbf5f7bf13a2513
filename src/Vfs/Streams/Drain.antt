-- ===== src/Vfs/Streams/Drain.antt =====
-- `VfsInputStream` of crates/eryx-vfs/src/streams.rs read to its end.
use eryx.Prelude.{
  ℕ, zero, suc, ◌+◌, ◌^◌, ◌<◌, ◌≡◌, refl, sym, ap, ◌∙◌, false, Option, none, some, [], ◌∷◌, ◌++◌,
  ok, err, length, length-take, length-drop, take, drop, take-append-drop, drop-drop, arith,
}
use eryx.Prelude.Text.{Text}
use eryx.Vfs.Storage.{Outcome, StorageState}
use eryx.Vfs.Storage as Storage
use eryx.Vfs.Storage.Slices.{read_at-Slices}
use eryx.Vfs.Streams.{
  VfsInputStream, StreamError, StreamResult, input_new, received, read_sync, read,
}

-- `bytes` and what comes after them.
abbrev then_rest : Text → Option Text → Option Text
then_rest bytes none = none
then_rest bytes (some rest) = some (bytes ++ rest)

abbrev follow : (VfsInputStream → Option Text) → VfsInputStream × StreamResult Text → Option Text
follow go_on (next, ok bytes) = then_rest bytes (go_on next)
follow go_on (next, err StreamError.closed) = some []
follow go_on (next, err (StreamError.last_operation_failed e)) = none
follow go_on (next, err StreamError.trap) = none

-- Reads of `size` bytes up to the end of the stream; none when a read fails or the rounds run out.
unfoldable pub read_all : ℕ → StorageState → VfsInputStream → ℕ → Option Text
read_all zero storage stream size = none
read_all (suc fuel) storage stream size =
    follow (λ next. read_all fuel storage next size) (read storage stream size)

-- An open stream on `path` at `position`.
abbrev reading : Text → ℕ → VfsInputStream
reading path position = record { path = path; position = position; is_closed = false }

drop-length-take : (n : ℕ) (xs : Text) → drop (length (take n xs)) xs ≡ drop n xs
drop-length-take zero xs = refl
drop-length-take (suc n) [] = refl
drop-length-take (suc n) (x ∷ xs) = drop-length-take n xs

module _ (s : StorageState) (path content : Text) (n : ℕ)
    (found : Storage.read s path ≡ ok content) where
  read_sync_lem :
      (position : ℕ)
      → position + suc n < 2 ^ 64
      → read s (reading path position) (suc n)
        ≡ received (reading path position) (take (suc n) (drop position content))
  unfolding read read_sync
  read_sync_lem position fits = rw (
    (read_at-Slices s path position (suc n) (omega arith) (omega arith)).within content found fits,
    read,
    read_sync,
  )

  abbrev read_on : ℕ → VfsInputStream → Option Text
  read_on fuel next = read_all fuel s next (suc n)

  read_all-received :
      (fuel position : ℕ) (left : Text)
      → position + suc n < 2 ^ 64
      → drop position content ≡ left
      → read_all (suc fuel) s (reading path position) (suc n)
        ≡ follow (read_on fuel) (received (reading path position) (take (suc n) left))
  unfolding read_all
  read_all-received fuel position left fits e =
      ap (follow (read_on fuel)) (read_sync_lem position fits)
      ∙ ap (λ t. follow (read_on fuel) (received (reading path position) (take (suc n) t))) e

  read_more :
      (position fuel c : ℕ) (cs : Text)
      → position + suc n < 2 ^ 64
      → position + suc (length (take n cs)) < 2 ^ 64
      → drop position content ≡ c ∷ cs
      → read_all (suc fuel) s (reading path position) (suc n)
        ≡ then_rest
            (c ∷ take n cs)
            (read_all fuel s (reading path (position + suc (length (take n cs)))) (suc n))
  read_more position fuel c cs fits small left =
      read_all-received fuel position (c ∷ cs) fits left
      ∙ ap (λ m. then_rest (c ∷ take n cs) (read_on fuel (reading path m))) (omega arith)

  -- With a round for each byte left and one more, everything that is left is read.
  read_all_left :
      (fuel position : ℕ) (left : Text)
      → drop position content ≡ left
      → length left < fuel
      → position + length left + suc n < 2 ^ 64
      → read_all fuel s (reading path position) (suc n) ≡ some left
  read_all_left zero position left e enough fits = absurd (omega arith)
  read_all_left (suc fuel) position [] e enough fits =
      read_all-received fuel position [] (omega arith) e
  read_all_left (suc fuel) position (c ∷ cs) e enough fits =
      let taken = length-take n cs in
      let dropped = length-drop n cs in
      let after : drop (position + suc (length (take n cs))) content ≡ drop n cs =
        sym (drop-drop (suc (length (take n cs))) position content)
        ∙ ap (drop (suc (length (take n cs)))) e
        ∙ drop-length-take n cs in
      let ih =
        read_all_left fuel (position + suc (length (take n cs))) (drop n cs) after
          (omega (arith, dropped)) (omega (arith, taken, dropped)) in
      read_more position fuel c cs (omega arith) (omega (arith, taken)) e
      ∙ rw ih (ap (λ t. some (c ∷ t)) (take-append-drop n cs))

-- Reads of any positive size from an input stream, up to its end, give the bytes of the file from the
-- offset on, and end after at most one more read than there are bytes, where no position on the
-- way leaves a machine word.
pub read_all-drop :
    (s : StorageState) (path content : Text) (offset n : ℕ)
    → Storage.read s path ≡ ok content
    → offset + length content + suc n < 2 ^ 64
    → read_all (suc (length content)) s (input_new path offset) (suc n) ≡ some (drop offset content)
unfolding input_new
read_all-drop s path content offset n found fits =
    let left = length-drop offset content in
    read_all_left s path content n found (suc (length content)) offset (drop offset content) refl
      (omega (arith, left)) (omega (arith, left))
