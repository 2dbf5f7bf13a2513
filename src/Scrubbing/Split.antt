-- ===== src/Scrubbing/Split.antt =====
-- What the scrubbing of crates/eryx-vfs/src/scrubbing.rs lets through.
use eryx.Prelude.{
  ℕ, zero, suc, ◌+◌, ◌-◌, ◌^◌, ◌<◌, max, ◌≡◌, ◌≢◌, refl, sym, subst, ap, ◌∙◌, Bool, ◌&&◌, none,
  some, [], ◌∷◌, ◌++◌, ok, ltb, leb, length, length-append, if◌then◌else◌, arith,
}
use eryx.Prelude.HashMap.{HashMap}
use eryx.Prelude.Text.{Text, find, starts_with}
use eryx.Vfs.Storage.{Outcome, StorageState, read}
use eryx.Vfs.Storage as Storage
use eryx.Vfs.Storage.Bytes.{byte_at, byte_at-append, byte_at_out, byte_at_ext, byte_at_ext}
use eryx.Vfs.Storage.Files.{WritesAt, write_at-WritesAt, read-write, content_or_empty}
use eryx.Net.Strings.{replace, replace_from}
use eryx.Scrubbing.{
  SecretConfig, redacted, replace_loop, replace_bytes, scrub_text, scrub_binary, ScrubbingStorage,
  scrub_if_needed, write, write_at,
}
use eryx.Scrubbing.Termination.{scrub_binary-first}

-- No placeholder stands in the text.
abbrev pub AreAbsent : HashMap Text SecretConfig → Text → Type 0
AreAbsent [] text = Unit {0}
AreAbsent ((name, secret) ∷ secrets) text =
    (find text secret.placeholder ≡ none) × AreAbsent secrets text

replace_from_absent :
    (text from to : Text) → find text from ≡ none → replace_from from to zero text ≡ text
unfolding replace_from find
replace_from_absent [] from to h = refl
replace_from_absent (c ∷ cs) from to h = ground (arith, replace_from_absent cs from to)

replace_loop_absent :
    (fuel : ℕ) (text from to : Text)
    → find text from ≡ none
    → length text < fuel
    → replace_loop fuel from to text ≡ some text
unfolding replace_loop find
replace_loop_absent zero text from to h enough = absurd (omega arith)
replace_loop_absent (suc fuel) [] from to h enough = refl
replace_loop_absent (suc fuel) (c ∷ cs) from to h enough =
    ground (arith, replace_loop_absent fuel cs from to)

find-empty : (text : Text) → find text [] ≢ none
unfolding find starts_with
find-empty [] h = ground arith
find-empty (c ∷ cs) h = ground arith

pub replace_absent : (text from to : Text) → find text from ≡ none → replace text from to ≡ text
unfolding replace
replace_absent text [] to h = absurd (find-empty text h)
replace_absent text (c ∷ from) to h = replace_from_absent text (c ∷ from) to h

scrub_text_absent :
    (secrets : HashMap Text SecretConfig) (text : Text)
    → AreAbsent secrets text
    → scrub_text secrets text ≡ text
unfolding scrub_text
scrub_text_absent [] text h = refl
scrub_text_absent ((name, secret) ∷ secrets) text h =
    rw (replace_absent text secret.placeholder redacted h.0) (scrub_text_absent secrets text h.1)

replace_bytes_absent :
    (text from : Text) → find text from ≡ none → replace_bytes text from redacted ≡ some text
unfolding replace_bytes
replace_bytes_absent text from h =
    replace_loop_absent (suc (length text)) text from redacted h (omega arith)

scrub_binary_absent :
    (secrets : HashMap Text SecretConfig) (text : Text)
    → AreAbsent secrets text
    → scrub_binary secrets text ≡ some text
unfolding scrub_binary
scrub_binary_absent [] text h = refl
scrub_binary_absent ((name, secret) ∷ secrets) text h =
    scrub_binary-first name secret secrets text text
      (replace_bytes_absent text secret.placeholder h.0)
    ∙ scrub_binary_absent secrets text h.1

scrub_absent :
    (is_utf8 : Text → Bool) (s : ScrubbingStorage) (path text : Text)
    → AreAbsent s.secrets text
    → scrub_if_needed is_utf8 s path text ≡ some text
unfolding scrub_if_needed
scrub_absent is_utf8 s path text h =
    ground (arith, scrub_text_absent s.secrets text h, scrub_binary_absent s.secrets text h)

-- The storage after a write of `front` and a write of `back` at its end.
module _ (now : ℕ) (is_utf8 : Text → Bool) (s : ScrubbingStorage) (path front back : Text) where
  abbrev after_front : StorageState
  after_front = (Storage.write now s.inner path front).0

  abbrev after_both : StorageState
  after_both = (Storage.write_at now after_front path (length front) back).0

  write_passes :
      AreAbsent s.secrets front
      → (Storage.write now s.inner path front).1 ≡ ok tt
      → write is_utf8 now s path front ≡ some (record s { inner = after_front }, ok tt)
  unfolding write
  write_passes absent done =
      rw (scrub_absent is_utf8 s path front absent, write)
        (ap (λ r. some (record s { inner = after_front }, r)) done)

  write_at_passes :
      AreAbsent s.secrets back
      → (Storage.write_at now after_front path (length front) back).1 ≡ Outcome.returns (ok tt)
      → write_at is_utf8 now (record s { inner = after_front }) path (length front) back
        ≡ some (record s { inner = after_both }, Outcome.returns (ok tt))
  unfolding write_at
  write_at_passes absent done =
      rw (scrub_absent is_utf8 (record s { inner = after_front }) path back absent, write_at)
        (ap (λ r. some (record s { inner = after_both }, r)) done)

  joined_byte :
      (content : Text) (i : ℕ)
      → length content ≡ length front + length back
      → byte_at content i ≡ (
          if leb (length front) i && ltb i (length front + length back)
          then byte_at back (i - length front)
          else byte_at front i)
      → byte_at content i ≡ byte_at (front ++ back) i
  joined_byte content i size byte = ground (
    arith,
    byte_at-append front back i,
    byte,
    byte_at_out front i,
    byte_at_out back (i - length front),
  )

  joins :
      read after_front path ≡ ok front
      → WritesAt after_front after_both path (length front) back
      → read after_both path ≡ ok (front ++ back)
  joins first second =
      let old : content_or_empty (read after_front path) ≡ front = ap content_or_empty first in
      let size : length second.content ≡ length front + length back =
        second.size ∙ ap (λ t. max (length t) (length front + length back)) old ∙ ground arith in
      second.found
      ∙ ap ok (
          byte_at_ext second.content (front ++ back) (size ∙ sym (length-append front back)) (λ i.
            joined_byte second.content i size (
              subst
                (λ t. byte_at second.content i ≡ (
                  if leb (length front) i && ltb i (length front + length back)
                  then byte_at back (i - length front)
                  else byte_at t i))
                old (second.byte i))))

  -- A write and a write at its end that succeed on the storage below, whose end fits a machine word and
  -- of which neither holds a placeholder, are scrubbed to themselves and the file holds both in a row.
  pub split_write :
      length front + length back < 2 ^ 64
      → AreAbsent s.secrets front
      → AreAbsent s.secrets back
      → (Storage.write now s.inner path front).1 ≡ ok tt
      → (Storage.write_at now after_front path (length front) back).1 ≡ Outcome.returns (ok tt)
      → (write is_utf8 now s path front ≡ some (record s { inner = after_front }, ok tt))
        × (write_at is_utf8 now (record s { inner = after_front }) path (length front) back
            ≡ some (record s { inner = after_both }, Outcome.returns (ok tt)))
        × (read after_both path ≡ ok (front ++ back))
  split_write fits no_front no_back done_front done_back =
      let first = read-write now s.inner path front done_front in
      let second = write_at-WritesAt now after_front path (length front) back fits done_back in
      (write_passes no_front done_front, write_at_passes no_back done_back, joins first.0 second)
