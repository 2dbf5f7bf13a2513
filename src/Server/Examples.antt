-- ===== src/Server/Examples.antt =====
-- A signed journal of crates/eryx-server/src/replay.rs at concrete inputs. The encoding here puts the numbers
-- and the lengths in front of the texts, and the MAC is the bytes behind a mark.
use eryx.Prelude.{
  ℕ, ◌≡◌, ◌≢◌, ◌⊎◌, refl, ap, true, false, [], ◌∷◌, ◌++◌, map, Result, ok, err, length, drop, arith,
}
use eryx.Prelude.Text.{Text, codes}
use eryx.Replay.Journal.{CallbackJournal}
use eryx.Server.Journal.{
  EntryMessage, JournalSigner, to_le_bytes, feed_entries, feed_mac, compute_mac, verify,
}
use eryx.Server.Journal.Framing.{append_split, first_byte, verify-bound}
use eryx.Server.Journal.Rerun.{sent, taken, signed_rerun}
use eryx.Replay.Journal.{execution_failed}
use eryx.Replay.Journal as Journal
use eryx.Replay.State.{new, build_journal}
use eryx.Replay.Callback.{Call}
use eryx.Replay.Calls.{run_calls, journaled}
use eryx.Replay.Resume.{Script, first_run, first_journal, second_outcome}

abbrev encode : EntryMessage → Text
encode e =
    e.index ∷ e.args_hash ∷ e.outcome ∷ length e.name ∷ length e.args_json ∷ e.name
    ++ (e.args_json ++ e.value)

encode-injective : (a b : EntryMessage) → encode a ≡ encode b → a ≡ b
encode-injective a b eq =
    let field = λ (n : ℕ). ap (λ t. first_byte (drop n t)) eq in
    let texts =
      append_split a.name b.name (a.args_json ++ a.value) (b.args_json ++ b.value) (field 3)
        (ap (drop 5) eq) in
    let rest = append_split a.args_json b.args_json a.value b.value (field 4) texts.1 in
    ground (arith, field 0, field 1, field 2, texts.0, rest.0, rest.1)

abbrev hmac : Text → Text → Text
hmac key input = 1 ∷ input

abbrev signer : JournalSigner
signer = record { key = codes "k" }

abbrev fetched : EntryMessage
fetched = record {
  index = 0;
  name = codes "fetch";
  args_hash = 42;
  args_json = codes "{}";
  outcome = 0;
  value = codes "1";
}

verified :
    verify encode hmac signer
      (record {
        entries = fetched ∷ [];
        signature = compute_mac encode hmac signer (fetched ∷ []) (codes "x");
      })
      (codes "x")
    ≡ true
unfolding verify compute_mac feed_mac feed_entries to_le_bytes
verified = refl

other_code :
    verify encode hmac signer
      (record {
        entries = fetched ∷ [];
        signature = compute_mac encode hmac signer (fetched ∷ []) (codes "x");
      })
      (codes "y")
    ≡ false
unfolding verify compute_mac feed_mac feed_entries to_le_bytes
other_code = refl

verify-bound_example :
    ((codes "x" ≡ codes "x") × (fetched ∷ [] ≡ fetched ∷ []))
    ⊎ ((feed_mac encode (fetched ∷ []) (codes "x") ≢ feed_mac encode (fetched ∷ []) (codes "x"))
        × (hmac signer.key (feed_mac encode (fetched ∷ []) (codes "x"))
            ≡ hmac signer.key (feed_mac encode (fetched ∷ []) (codes "x"))))
verify-bound_example =
    verify-bound encode encode-injective hmac signer (fetched ∷ []) (fetched ∷ []) (codes "x")
      (codes "x") (omega arith, tt) (omega arith, tt) (omega arith) (omega arith) verified

abbrev value_text : Text → Text
value_text value = value

abbrev from_str : Text → Result Text Text
from_str [] = err (codes "EOF")
from_str (c ∷ cs) = ok (c ∷ cs)

abbrev read : Call
read = record { name = codes "read"; args_json = codes "{}" }

-- A read and a failing one; the second run would answer otherwise.
abbrev script : Script Text
script =
    (read, ok (codes "5"), ok (codes "6"))
    ∷ (read, err (execution_failed (codes "full")), ok (codes "1"))
    ∷ []

abbrev again : CallbackJournal Text
again =
    taken value_text from_str value_text encode hmac signer (codes "x")
      (first_journal (codes "x") script)

signed_rerun_example :
    (map journaled (second_outcome again script).1
      ≡ map journaled (run_calls (new (Journal.new (codes "x"))) (first_run script)).1)
    × ((second_outcome again script).0.live_mode ≡ false)
    × ((second_outcome again script).0.replayed_count ≡ 2)
    × (sent value_text from_str value_text encode hmac signer
          (codes "x")
          (build_journal (second_outcome again script).0 (codes "x"))
        ≡ sent value_text from_str value_text encode hmac signer
            (codes "x")
            (first_journal (codes "x") script))
signed_rerun_example =
    signed_rerun value_text from_str value_text encode hmac signer (codes "x") script
      (refl, (tt, tt)) (λ input. omega arith) (refl, (refl, tt)) (omega arith)
