-- ===== src/Server/Journal/Framing.antt =====
-- What the signature of a journal in crates/eryx-server/src/replay.rs binds.
use eryx.Prelude.{
  ℕ, zero, suc, ◌/◌, ◌%◌, ◌^◌, ◌<◌, ◌≡◌, refl, sym, ap, ap₂, ◌∙◌, true, List, [], ◌∷◌, ◌++◌,
  text_keys, text_eq, text_eq_iff, Bool-cases, inl, inr, ◌⊎◌, ◌≢◌, drop, length, arith,
}
use eryx.Prelude.Text.{Text}
use eryx.Server.Journal.{
  EntryMessage, JournalSigner, to_le_bytes, feed_entries, feed_mac, compute_mac, verify,
}

abbrev pub first_byte : Text → ℕ
first_byte [] = 0
first_byte (c ∷ cs) = c

cons_split : (c d : ℕ) (a b : Text) → c ∷ a ≡ d ∷ b → (c ≡ d) × (a ≡ b)
cons_split c d a b e = (ap first_byte e, ap (drop 1) e)

-- The number has at most that many bytes.
abbrev Fits : ℕ → ℕ → Type 0
Fits zero n = n ≡ 0
Fits (suc size) n = Fits size (n / 256)

four_bytes_fit : (n : ℕ) → n < 2 ^ 32 → Fits 4 n
four_bytes_fit n h = omega arith

eight_bytes_fit : (n : ℕ) → n < 2 ^ 64 → Fits 8 n
eight_bytes_fit n h = omega arith

length-to_le_bytes : (size n : ℕ) → length (to_le_bytes size n) ≡ size
unfolding to_le_bytes
length-to_le_bytes zero n = refl
length-to_le_bytes (suc size) n = ap suc (length-to_le_bytes size (n / 256))

to_le_bytes-injective :
    (size n m : ℕ) → Fits size n → Fits size m → to_le_bytes size n ≡ to_le_bytes size m → n ≡ m
unfolding to_le_bytes
to_le_bytes-injective zero n m f g e = omega arith
to_le_bytes-injective (suc size) n m f g e =
    let both =
      cons_split (n % 256) (m % 256) (to_le_bytes size (n / 256)) (to_le_bytes size (m / 256)) e in
    omega (arith, both.0, to_le_bytes-injective size (n / 256) (m / 256) f g both.1)

pub append_split : (a b x y : Text) → length a ≡ length b → a ++ x ≡ b ++ y → (a ≡ b) × (x ≡ y)
append_split [] [] x y h e = (refl, e)
append_split [] (c ∷ b) x y h e = absurd (omega arith)
append_split (c ∷ a) [] x y h e = absurd (omega arith)
append_split (c ∷ a) (d ∷ b) x y h e =
    let both = cons_split c d (a ++ x) (b ++ y) e in
    let rest = append_split a b x y (omega arith) both.1 in
    (ap₂ (λ c cs. c ∷ cs) both.0 rest.0, rest.1)

abbrev pub AreShort : (EntryMessage → Text) → List EntryMessage → Type 0
AreShort encode [] = Unit {0}
AreShort encode (entry ∷ entries) = (length (encode entry) < 2 ^ 32) × AreShort encode entries

-- A length in front of a text, and the text, are read back.
framed_split :
    (size : ℕ) (a b x y : Text)
    → Fits size (length a)
    → Fits size (length b)
    → to_le_bytes size (length a) ++ (a ++ x) ≡ to_le_bytes size (length b) ++ (b ++ y)
    → (a ≡ b) × (x ≡ y)
framed_split size a b x y f g e =
    let both =
      append_split (to_le_bytes size (length a)) (to_le_bytes size (length b)) (a ++ x) (b ++ y)
        (length-to_le_bytes size (length a) ∙ sym (length-to_le_bytes size (length b))) e in
    append_split a b x y (to_le_bytes-injective size (length a) (length b) f g both.0) both.1

module _ (encode : EntryMessage → Text)
    (encode-injective : (a b : EntryMessage) → encode a ≡ encode b → a ≡ b) where
  feed_entries-injective :
      (es fs : List EntryMessage)
      → AreShort encode es
      → AreShort encode fs
      → feed_entries encode es ≡ feed_entries encode fs
      → es ≡ fs
  unfolding feed_entries to_le_bytes
  feed_entries-injective [] [] h k eq = refl
  feed_entries-injective [] (f ∷ fs) h k eq = absurd (ground (arith, eq))
  feed_entries-injective (e ∷ es) [] h k eq = absurd (ground (arith, eq))
  feed_entries-injective (e ∷ es) (f ∷ fs) h k eq =
      let both =
        framed_split 4 (encode e) (encode f) (feed_entries encode es) (feed_entries encode fs)
          (four_bytes_fit (length (encode e)) h.0) (four_bytes_fit (length (encode f)) k.0) eq in
      ap₂ (λ e es. e ∷ es) (encode-injective e f both.0)
        (feed_entries-injective es fs h.1 k.1 both.1)

  feed_mac-injective :
      (es fs : List EntryMessage) (code other : Text)
      → AreShort encode es
      → AreShort encode fs
      → length code < 2 ^ 64
      → length other < 2 ^ 64
      → feed_mac encode es code ≡ feed_mac encode fs other
      → (code ≡ other) × (es ≡ fs)
  unfolding feed_mac
  feed_mac-injective es fs code other h k c o eq =
      let both =
        framed_split 8 code other (feed_entries encode es) (feed_entries encode fs)
          (eight_bytes_fit (length code) c) (eight_bytes_fit (length other) o) eq in
      (both.0, feed_entries-injective es fs h k both.1)

  verify-signature :
      (hmac : Text → Text → Text) (signer : JournalSigner) (es : List EntryMessage)
      (tag code : Text)
      → verify encode hmac signer (record { entries = es; signature = tag }) code ≡ true
      → hmac signer.key (feed_mac encode es code) ≡ tag
  unfolding verify
  verify-signature hmac signer es [] code h = absurd (ground arith)
  verify-signature hmac signer es (b ∷ bs) code h =
      (text_eq_iff (hmac signer.key (feed_mac encode es code)) (b ∷ bs)).0 h

  -- Where the encoding of an entry is injective, as one that decodes is: a signature that was made for some
  -- entries and some code, and that verifies for others with the same key, is either for the same entries
  -- and the same code, or the two inputs of the MAC differ and are a collision of it. The encoded entries
  -- are shorter than 2 ^ 32 and the codes shorter than 2 ^ 64 bytes. Nothing is assumed of the MAC.
  pub verify-bound :
      (hmac : Text → Text → Text) (signer : JournalSigner) (es fs : List EntryMessage)
      (code other : Text)
      → AreShort encode es
      → AreShort encode fs
      → length code < 2 ^ 64
      → length other < 2 ^ 64
      → verify encode hmac signer
          (record { entries = es; signature = compute_mac encode hmac signer fs other })
          code
        ≡ true
      → ((code ≡ other) × (es ≡ fs))
        ⊎ ((feed_mac encode es code ≢ feed_mac encode fs other)
            × (hmac signer.key (feed_mac encode es code)
                ≡ hmac signer.key (feed_mac encode fs other)))
  unfolding compute_mac
  verify-bound hmac signer es fs code other h k c o verified =
      let a = feed_mac encode es code in
      let b = feed_mac encode fs other in
      elim (Bool-cases (text_eq a b)) [
        | inl same ↦ inl (feed_mac-injective es fs code other h k c o ((text_eq_iff a b).0 same))
        | inr differ ↦ inr (
          λ same. ground (arith, (text_eq_iff a b).1 same, differ),
          verify-signature hmac signer es (hmac signer.key b) code verified,
        )
      ]
