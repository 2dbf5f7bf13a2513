-- ===== src/Vfs/Streams/Chunks.antt =====
-- `VfsOutputStream` of crates/eryx-vfs/src/streams.rs: chunks that are buffered and flushed make one
-- write of all of them.
use eryx.Prelude.{
  ℕ, ◌+◌, ◌^◌, ◌<◌, ◌≡◌, ◌≢◌, refl, sym, ap, subst, ◌∙◌, inl, inr, false, some, List, [], ◌∷◌, ◌++◌,
  ok, err, leb, ◌==◌, eq_iff, text_keys, length, length-append, Bool-cases, if◌then◌else◌, arith,
}
use eryx.Prelude.Text.{Text}
use eryx.Vfs.Storage.{Outcome, StorageState}
use eryx.Vfs.Storage as Storage
use eryx.Vfs.Streams.{
  VfsOutputStream, buffer_size, flush_sync, write_position, write, flush, Written,
}
use eryx.Vfs.Streams.Composition.{
  IsWritable, Filled, Filled-append, write_at_runs, write_at-IsWritable, write_at-Filled,
}
use mathlib.Core.List.{append_assoc, append-nil}

-- Chunks written one after the other, up to the first error.
unfoldable pub write_all : ℕ → StorageState → VfsOutputStream → List Text → Written
write_all now storage stream [] = (stream, storage, ok tt)
write_all now storage stream (chunk ∷ chunks) =
    let (next, after, reply) = write now storage stream chunk in
    elim reply [ err e ↦ (next, after, err e) | ok _ ↦ write_all now after next chunks ]

abbrev pub concat : List Text → Text
concat [] = []
concat (chunk ∷ chunks) = chunk ++ concat chunks

-- The chunks, and a flush of what is left.
unfoldable pub write_chunks : ℕ → StorageState → VfsOutputStream → List Text → Written
write_chunks now storage stream chunks =
    let (next, after, reply) = write_all now storage stream chunks in
    elim reply [ err e ↦ (next, after, err e) | ok _ ↦ flush now after next ]

-- An open stream that writes to `path` at `position`.
abbrev pub writing : Text → Text → ℕ → VfsOutputStream
writing path buffer position = record {
  path = path;
  buffer = buffer;
  position = some position;
  is_closed = false;
}

abbrev extended : VfsOutputStream → Text → VfsOutputStream
extended w bytes = record w { buffer = w.buffer ++ bytes }

module _ (origin : StorageState) (path p : Text) (offset : ℕ) where
  pub data Stored (s : StorageState) (flushed : Text) : Type 0 where
    untouched : s ≡ origin → flushed ≡ [] → Stored s flushed
    filled : Filled origin s path offset flushed → Stored s flushed

  -- What is on its way: a part is in the file, the rest in the buffer.
  pub record Holds (all : Text) (w : VfsOutputStream) (s : StorageState) : Type 0 where
    pub flushed : Text
    pub buffer : Text
    pub split : flushed ++ buffer ≡ all
    pub same : w ≡ writing path buffer (offset + length flushed)
    pub writable : IsWritable s path p
    pub stored : Stored s flushed

  Stored-append :
      (s t : StorageState) (front back : Text)
      → Stored s front
      → Filled s t path (offset + length front) back
      → Filled origin t path offset (front ++ back)
  Stored-append s t front back (untouched e f) g =
      let from_start : Filled s t path offset back =
        subst (λ n. Filled s t path n back) (omega (arith, ap length f)) g in
      let joined : front ++ back ≡ back = rw f refl in
      subst (λ o. Filled o t path offset (front ++ back)) e
        (subst (λ bytes. Filled s t path offset bytes) (sym joined) from_start)
  Stored-append s t front back (filled h) g = Filled-append front back h g

  module _ (now : ℕ) where
    flush_sync_empty :
        (s : StorageState) (position : ℕ)
        → flush_sync now s (writing path [] position) ≡ (writing path [] position, s, ok tt)
    unfolding flush_sync
    flush_sync_empty s position = refl

    flush_sync_full :
        (s : StorageState) (buffer : Text) (position : ℕ)
        → (buffer == []) ≡ false
        → position + length buffer < 2 ^ 64
        → IsWritable s path p
        → flush_sync now s (writing path buffer position) ≡ (
          writing path [] (position + length buffer),
          (Storage.write_at now s path position buffer).0,
          ok tt,
        )
    unfolding flush_sync write_position
    flush_sync_full s buffer position full fits writable =
        ground (arith, write_at_runs now s path p position buffer fits writable)

    -- The state after a flush, in terms of the one before.
    flush_sync-Holds :
        (all : Text) (w : VfsOutputStream) (s : StorageState)
        → offset + length all < 2 ^ 64
        → Holds all w s
        → (Holds all (flush_sync now s w).0 (flush_sync now s w).1)
          × ((flush_sync now s w).2 ≡ ok tt)
          × ((flush_sync now s w).0.buffer ≡ [])
    flush_sync-Holds all w s fits h =
        let position = offset + length h.flushed in
        let full_size : length h.flushed + length h.buffer ≡ length all =
          sym (length-append h.flushed h.buffer) ∙ ap length h.split in
        rw h.same (elim (Bool-cases (h.buffer == [])) [
          | inl empty ↦
              let none_left = (eq_iff h.buffer []).0 empty in
              rw none_left (
                rw (flush_sync_empty s position) (
                  record {
                    flushed = h.flushed;
                    buffer = [];
                    split = ap (λ b. h.flushed ++ b) (sym none_left) ∙ h.split;
                    same = refl;
                    writable = h.writable;
                    stored = h.stored;
                  },
                  refl,
                  refl,
                ))
          | inr full ↦
              let small : position + length h.buffer < 2 ^ 64 = omega (arith, full_size) in
              rw (flush_sync_full s h.buffer position full small h.writable) (
                record {
                  flushed = h.flushed ++ h.buffer;
                  buffer = [];
                  split = append-nil (h.flushed ++ h.buffer) ∙ h.split;
                  same = ap (writing path []) (omega (arith, length-append h.flushed h.buffer));
                  writable = write_at-IsWritable now s path p position h.buffer small h.writable;
                  stored = filled (
                      Stored-append s (Storage.write_at now s path position h.buffer).0 h.flushed
                        h.buffer h.stored
                        (write_at-Filled now s path p position h.buffer small h.writable));
                },
                refl,
                refl,
              )
        ])

    flush_open :
        (w : VfsOutputStream) (s : StorageState)
        → w.is_closed ≡ false
        → flush now s w ≡ flush_sync now s w
    unfolding flush
    flush_open w s is_open = ground arith

    -- A write to an open stream, on its three branches.
    write_open :
        (w : VfsOutputStream) (s : StorageState) (bytes : Text)
        → w.is_closed ≡ false
        → write now s w bytes ≡ (
            if bytes == []
            then (w, s, ok tt)
            else if leb buffer_size (length (w.buffer ++ bytes))
            then flush_sync now s (record w { buffer = w.buffer ++ bytes })
            else (record w { buffer = w.buffer ++ bytes }, s, ok tt))
    unfolding write
    write_open w s bytes is_open = ground arith

    pub flush-Holds :
        (all : Text) (w : VfsOutputStream) (s : StorageState)
        → offset + length all < 2 ^ 64
        → Holds all w s
        → (Holds all (flush now s w).0 (flush now s w).1)
          × ((flush now s w).2 ≡ ok tt)
          × ((flush now s w).0.buffer ≡ [])
    flush-Holds all w s fits h =
        rw (flush_open w s (ap (λ (v : VfsOutputStream). v.is_closed) h.same))
          (flush_sync-Holds all w s fits h)

    -- Where nothing is left in the buffer, the file has everything.
    pub Holds-Filled :
        (all : Text) (w : VfsOutputStream) (s : StorageState)
        → all ≢ []
        → Holds all w s
        → w.buffer ≡ []
        → Filled origin s path offset all
    Holds-Filled all w s some_bytes h none_left =
        let empty : h.buffer ≡ [] =
          ap (λ (v : VfsOutputStream). v.buffer) (sym h.same) ∙ none_left in
        let whole : h.flushed ≡ all =
          sym (append-nil h.flushed) ∙ ap (λ b. h.flushed ++ b) (sym empty) ∙ h.split in
        elim h.stored [
          | untouched e f ↦ absurd (some_bytes (sym whole ∙ f))
          | filled f ↦ subst (λ bytes. Filled origin s path offset bytes) whole f
        ]

    buffered-Holds :
        (all bytes : Text) (w : VfsOutputStream) (s : StorageState)
        → Holds all w s
        → Holds (all ++ bytes) (record w { buffer = w.buffer ++ bytes }) s
    buffered-Holds all bytes w s h = record {
      flushed = h.flushed;
      buffer = h.buffer ++ bytes;
      split = sym (append_assoc h.flushed h.buffer bytes) ∙ ap (λ t. t ++ bytes) h.split;
      same = ap (λ (v : VfsOutputStream). extended v bytes) h.same;
      writable = h.writable;
      stored = h.stored;
    }

    pub write-Holds :
        (all bytes : Text) (w : VfsOutputStream) (s : StorageState)
        → offset + length (all ++ bytes) < 2 ^ 64
        → Holds all w s
        → (Holds (all ++ bytes) (write now s w bytes).0 (write now s w bytes).1)
          × ((write now s w bytes).2 ≡ ok tt)
    write-Holds all bytes w s fits h =
        let kept = buffered-Holds all bytes w s h in
        rw (write_open w s bytes (ap (λ (v : VfsOutputStream). v.is_closed) h.same))
          (elim (Bool-cases (bytes == [])) [
            | inl empty ↦
                let no_bytes : all ++ bytes ≡ all =
                  ap (λ b. all ++ b) ((eq_iff bytes []).0 empty) ∙ append-nil all in
                rw (empty, no_bytes) (h, refl)
            | inr some_bytes ↦ elim (Bool-cases (leb buffer_size (length (w.buffer ++ bytes)))) [
              | inl large ↦
                  let flushed = flush_sync-Holds (all ++ bytes) (extended w bytes) s fits kept in
                  rw (some_bytes, large) (flushed.0, flushed.1)
              | inr small ↦ rw (some_bytes, small) (kept, refl)
            ]
          ])
