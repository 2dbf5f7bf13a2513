-- ===== src/Server/Journal.antt =====
-- The journals of crates/eryx-server/src/replay.rs: their conversion to and from protobuf and their
-- signature. `V` stands for `serde_json::Value`, whose text and parser are arguments, as are the encoding
-- of an entry by prost and HMAC-SHA256 as a function of the key and the bytes.
pub mod Framing
pub mod RoundTrip
pub mod Rerun
use eryx.Prelude.{
  ℕ, zero, suc, ◌/◌, ◌%◌, Bool, true, false, ◌&&◌, not, ◌==◌, text_keys, List, [], ◌∷◌, ◌++◌,
  Result, ok, err, map, nat_eq, length, if◌then◌else◌,
}
use eryx.Prelude.HashMap.{HashMap}
use eryx.Prelude.Text.{Text}
use eryx.Replay.Journal.{CallbackJournalEntry, CallbackJournal, SuspendedCallback, new}

-- The messages `CallbackJournalEntry` and `CallbackJournal`; an outcome is 0 for OK and 1 for ERROR.
pub record EntryMessage : Type 0 where
  pub index : ℕ
  pub name : Text
  pub args_hash : ℕ
  pub args_json : Text
  pub outcome : ℕ
  pub value : Text

pub record JournalMessage : Type 0 where
  pub entries : List EntryMessage
  pub signature : Text

pub record JournalSigner : Type 0 where
  pub key : Text

-- `to_le_bytes` of a number of that many bytes, to which a larger one is cut.
unfoldable pub to_le_bytes : ℕ → ℕ → Text
to_le_bytes zero n = []
to_le_bytes (suc size) n = n % 256 ∷ to_le_bytes size (n / 256)

abbrev pub no_messages : List EntryMessage → Bool
no_messages [] = true
no_messages (entry ∷ entries) = false

module _ (encode : EntryMessage → Text) where
  -- The loop over the entries.
  unfoldable pub feed_entries : List EntryMessage → Text
  feed_entries [] = []
  feed_entries (entry ∷ entries) =
      let encoded = encode entry in
      to_le_bytes 4 (length encoded) ++ (encoded ++ feed_entries entries)

  -- All that goes into the MAC, in order.
  unfoldable pub feed_mac : List EntryMessage → Text → Text
  feed_mac entries code = to_le_bytes 8 (length code) ++ (code ++ feed_entries entries)

  module _ (hmac : Text → Text → Text) where
    unfoldable pub compute_mac : JournalSigner → List EntryMessage → Text → Text
    compute_mac signer entries code = hmac signer.key (feed_mac entries code)

    unfoldable pub sign : JournalSigner → JournalMessage → Text → JournalMessage
    sign signer journal code = record journal {
      signature = compute_mac signer journal.entries code;
    }

    unfoldable pub verify : JournalSigner → JournalMessage → Text → Bool
    verify signer journal code = elim journal.signature [
      | [] ↦ false
      | b ∷ bs ↦ hmac signer.key (feed_mac journal.entries code) == journal.signature
    ]

unfoldable pub suspended_to_proto : SuspendedCallback → Text × Text × Text
suspended_to_proto s = (s.name, s.args_json, s.reason)

module _ {ℓ} {V : Type ℓ} (value_text : V → Text) (from_str : Text → Result V Text)
    (string_value : Text → V) where
  abbrev pub or_string : Text → Result V Text → V
  or_string text (ok value) = value
  or_string text (err e) = string_value text

  unfoldable pub entry_from_proto : EntryMessage → CallbackJournalEntry V
  entry_from_proto entry = record {
    index = entry.index;
    name = entry.name;
    args_hash = entry.args_hash;
    args_json = entry.args_json;
    result =
        if nat_eq entry.outcome 1
        then err entry.value
        else ok (or_string entry.value (from_str entry.value));
  }

  unfoldable pub journal_from_proto : Text → JournalMessage → CallbackJournal V
  journal_from_proto code proto = record {
    code = code;
    entries = map entry_from_proto proto.entries;
  }

  unfoldable pub entry_to_proto : CallbackJournalEntry V → EntryMessage
  entry_to_proto entry =
      let (outcome, value) : ℕ × Text = elim entry.result [
        | ok value ↦ (0, value_text value)
        | err message ↦ (1, message)
      ] in
      record {
        index = entry.index;
        name = entry.name;
        args_hash = entry.args_hash;
        args_json = entry.args_json;
        outcome = outcome;
        value = value;
      }

  unfoldable pub journal_to_proto : CallbackJournal V → JournalMessage
  journal_to_proto journal = record { entries = map entry_to_proto journal.entries; signature = [] }

-- The journal that `execute` of service.rs replays from.
module _ {ℓ} {V : Type ℓ} (value_text : V → Text) (from_str : Text → Result V Text)
    (string_value : Text → V) (encode : EntryMessage → Text) (hmac : Text → Text → Text) where
  unfoldable pub previous_journal : JournalSigner → Text → JournalMessage → CallbackJournal V
  previous_journal signer code j =
      if not (no_messages j.entries) && not (verify encode hmac signer j code)
      then new code
      else journal_from_proto value_text from_str string_value code j
