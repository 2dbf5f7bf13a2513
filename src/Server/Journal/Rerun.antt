-- ===== src/Server/Journal/Rerun.antt =====
-- A script that the server runs again from the journal that it signed: crates/eryx-server/src/replay.rs with
-- crates/eryx/src/replay.rs.
use eryx.Prelude.{ℕ, suc, ◌^◌, ◌<◌, ◌≤◌, ◌≡◌, ap, false, [], ◌∷◌, Result, map, length, arith}
use eryx.Prelude.Text.{Text}
use eryx.Replay.Journal as Journal
use eryx.Replay.Journal.{CallbackJournal}
use eryx.Replay.State.{new, build_journal}
use eryx.Replay.Calls.{run_calls, NoneSuspends, journaled, entries_from}
use eryx.Replay.Resume.{Script, first_run, first_journal, second_outcome, rerun, first_journal_lem}
use eryx.Server.Journal.{
  EntryMessage, JournalMessage, JournalSigner, sign, journal_to_proto, previous_journal,
}
use eryx.Server.Journal.RoundTrip.{Parses, AllParse, previous_journal-sign}

module _ {ℓ} {V : Type ℓ} (value_text : V → Text) (from_str : Text → Result V Text)
    (string_value : Text → V) (encode : EntryMessage → Text) (hmac : Text → Text → Text)
    (signer : JournalSigner) (code : Text) where
  -- What a request gets back, and what the next request with it replays from.
  abbrev pub sent : CallbackJournal V → JournalMessage
  sent journal =
      sign encode hmac signer (journal_to_proto value_text from_str string_value journal) code

  abbrev pub taken : CallbackJournal V → CallbackJournal V
  taken journal =
      previous_journal value_text from_str string_value encode hmac signer code (sent journal)

  -- Each value that a callback gave in the first run parses back from its text.
  abbrev pub AnswersParse : Script V → Type ℓ
  AnswersParse [] = Unit {ℓ}
  AnswersParse ((c, live, again) ∷ cs) =
      Parses value_text from_str string_value (journaled live) × AnswersParse cs

  AnswersParse-AllParse :
      (i : ℕ) (cs : Script V)
      → AnswersParse cs
      → AllParse value_text from_str string_value (entries_from i (first_run cs))
  AnswersParse-AllParse i [] parse = tt
  AnswersParse-AllParse i ((c, live, again) ∷ cs) parse =
      (parse.0, AnswersParse-AllParse (suc i) cs parse.1)

  taken_same :
      (cs : Script V)
      → AnswersParse cs
      → ((input : Text) → 0 < length (hmac signer.key input))
      → NoneSuspends (first_run cs)
      → length cs ≤ 2 ^ 32
      → taken (first_journal code cs) ≡ first_journal code cs
  taken_same cs parse some_tag n fits = rw (first_journal_lem code cs n fits) (
      previous_journal-sign value_text from_str string_value encode hmac signer
        (record { code = code; entries = entries_from 0 (first_run cs) })
        (AnswersParse-AllParse 0 cs parse) some_tag)

  -- Where each value that a callback gave in the first run parses back from its text, and the MAC is not
  -- empty: a script of fewer than 2 ^ 32 awaited calls, none of which suspends, that is run again from the
  -- signed journal of its first run gives each call the value or the error text of the first run, whatever
  -- the real callbacks would answer now, never leaves replay, counts every call as replayed, and sends the
  -- same signed journal again.
  pub signed_rerun :
      (cs : Script V)
      → AnswersParse cs
      → ((input : Text) → 0 < length (hmac signer.key input))
      → NoneSuspends (first_run cs)
      → length cs < 2 ^ 32
      → let j = taken (first_journal code cs) in
        (map journaled (second_outcome j cs).1
          ≡ map journaled (run_calls (new (Journal.new code)) (first_run cs)).1)
        × ((second_outcome j cs).0.live_mode ≡ false)
        × ((second_outcome j cs).0.replayed_count ≡ length cs)
        × (sent (build_journal (second_outcome j cs).0 code) ≡ sent (first_journal code cs))
  signed_rerun cs parse some_tag n fits =
      let again = rerun code cs n fits in
      rw (taken_same cs parse some_tag n (omega arith)) (again.0, again.1, again.2, ap sent again.3)
