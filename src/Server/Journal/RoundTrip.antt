-- ===== src/Server/Journal/RoundTrip.antt =====
-- A journal that the server of crates/eryx-server/src/replay.rs signed comes back as it was.
use eryx.Prelude.{
  ◌<◌, ◌≡◌, refl, ap, ap₂, true, List, [], ◌∷◌, Result, ok, err, text_keys, text_eq_iff, if_rule,
  not, ◌&&◌, map, length, arith,
}
use eryx.Prelude.Text.{Text}
use eryx.Replay.Journal.{CallbackJournalEntry, CallbackJournal}
use eryx.Server.Journal.{
  EntryMessage, JournalMessage, JournalSigner, feed_mac, compute_mac, sign, verify,
  entry_from_proto, journal_from_proto, entry_to_proto, or_string, no_messages, journal_to_proto,
  previous_journal,
}

module _ {ℓ} {V : Type ℓ} (value_text : V → Text) (from_str : Text → Result V Text)
    (string_value : Text → V) where
  -- The value, if it is one, parses back from its text.
  abbrev pub Parses : Result V Text → Type ℓ
  Parses (ok v) = from_str (value_text v) ≡ ok v
  Parses (err message) = Unit {ℓ}

  abbrev pub AllParse : List (CallbackJournalEntry V) → Type ℓ
  AllParse [] = Unit {ℓ}
  AllParse (entry ∷ entries) = Parses entry.result × AllParse entries

  result_back :
      (entry : CallbackJournalEntry V) (r : Result V Text)
      → Parses r
      → entry_from_proto value_text from_str string_value
          (entry_to_proto value_text from_str string_value (record entry { result = r }))
        ≡ record entry { result = r }
  unfolding entry_from_proto entry_to_proto
  result_back entry (ok v) parses =
      ap
        (λ parsed. record entry {
          result = ok (or_string value_text from_str string_value (value_text v) parsed);
        })
        parses
  result_back entry (err message) parses = refl

  entry_from-entry_to :
      (entry : CallbackJournalEntry V)
      → Parses entry.result
      → entry_from_proto value_text from_str string_value
          (entry_to_proto value_text from_str string_value entry)
        ≡ entry
  entry_from-entry_to entry parses = result_back entry entry.result parses

  entries_from-entries_to :
      (entries : List (CallbackJournalEntry V))
      → AllParse entries
      → map
          (entry_from_proto value_text from_str string_value)
          (map (entry_to_proto value_text from_str string_value) entries)
        ≡ entries
  entries_from-entries_to [] parse = refl
  entries_from-entries_to (entry ∷ entries) parse =
      ap₂ (λ e es. e ∷ es) (entry_from-entry_to entry parse.0)
        (entries_from-entries_to entries parse.1)

  module _ (encode : EntryMessage → Text) (hmac : Text → Text → Text) where
    verify-tag :
        (signer : JournalSigner) (entries : List EntryMessage) (code tag : Text)
        → hmac signer.key (feed_mac encode entries code) ≡ tag
        → 0 < length tag
        → verify encode hmac signer (record { entries = entries; signature = tag }) code ≡ true
    unfolding verify
    verify-tag signer entries code [] e h = absurd (omega arith)
    verify-tag signer entries code (b ∷ bs) e h =
        (text_eq_iff (hmac signer.key (feed_mac encode entries code)) (b ∷ bs)).1 e

    verify-sign :
        (signer : JournalSigner) (journal : JournalMessage) (code : Text)
        → 0 < length (hmac signer.key (feed_mac encode journal.entries code))
        → verify encode hmac signer (sign encode hmac signer journal code) code ≡ true
    unfolding sign compute_mac
    verify-sign signer journal code some_tag =
        verify-tag signer journal.entries code
          (hmac signer.key (feed_mac encode journal.entries code)) refl some_tag

    -- Where each value of the journal parses back from its text and the MAC is not empty, the server takes a journal that
    -- it converted and signed for a script, as it was, when it gets it with that script.
    pub previous_journal-sign :
        (signer : JournalSigner) (journal : CallbackJournal V)
        → AllParse journal.entries
        → ((input : Text) → 0 < length (hmac signer.key input))
        → previous_journal value_text from_str string_value encode hmac signer journal.code (
            sign encode hmac signer
              (journal_to_proto value_text from_str string_value journal)
              journal.code)
          ≡ journal
    unfolding previous_journal sign journal_from_proto journal_to_proto
    previous_journal-sign signer journal parse some_tag =
        let proto = journal_to_proto value_text from_str string_value journal in
        let verified =
          verify-sign signer proto journal.code
            (some_tag (feed_mac encode proto.entries journal.code)) in
        if_rule (λ (j : CallbackJournal V). j ≡ journal)
          (not (no_messages proto.entries)
            && not (
                verify encode hmac signer (sign encode hmac signer proto journal.code)
                  journal.code))
          _ _ (λ refused. absurd (ground (arith, verified, refused)))
          (λ taken.
            ap (λ es. record journal { entries = es })
              (entries_from-entries_to journal.entries parse))
