-- ===== src/Recovery/Phrase.antt =====
-- The recovery phrase and the master secret.
use filum_crypto.Prelude.{
  Bytes, length, ◌==◌, ==_iff, Bool-cases, inl, inr, ◌⊎◌, Option, some, none, ok, err, Error,
  then_ok-eq_ok, map_err, map_err-eq_ok, ok-injective, ◌≡◌, refl,
}
use filum_crypto.External.{Backend, IsBip39}
use filum_crypto.Recovery.{secret_to_phrase, phrase_to_secret}

module _ (B : Backend) where
  open B use {bip39}

  -- The phrase of a master secret of 32 bytes gives that secret back, if the BIP39 crate meets its
  -- laws.
  pub phrase_to_secret-secret_to_phrase :
      IsBip39 bip39
      → (secret phrase : Bytes) → length secret ≡ 32
      → secret_to_phrase B secret ≡ ok phrase
      → phrase_to_secret B phrase ≡ ok secret
  unfolding secret_to_phrase phrase_to_secret
  phrase_to_secret-secret_to_phrase L secret phrase h e =
      let (m, em, ep) =
        then_ok-eq_ok (map_err Error.invalid_key_length (bip39.from_entropy secret)) _ e in
      let back = L.to_entropy-from_entropy secret (map_err-eq_ok Error.invalid_key_length _ em) in
      let long = (==_iff (length secret) 32).1 h in
      rw (← ok-injective ep, L.parse-to_string m, back, long)

  -- `phrase_to_secret` returns a secret of 32 bytes, the entropy of the parsed phrase, or refuses with
  -- `InvalidPhrase`.
  pub phrase_to_secret_lem :
      (phrase : Bytes)
      → ((secret : Bytes) × (phrase_to_secret B phrase ≡ ok secret)
          × (length secret ≡ 32)
          × ((m : bip39.Mnemonic) × (bip39.parse phrase ≡ some m) × (bip39.to_entropy m ≡ secret)))
        ⊎ (phrase_to_secret B phrase ≡ err Error.invalid_phrase)
  unfolding phrase_to_secret
  phrase_to_secret_lem phrase = by_parse (bip39.parse phrase) refl
    where
      by_parse :
          (o : Option bip39.Mnemonic)
          → bip39.parse phrase ≡ o
          → ((secret : Bytes) × (phrase_to_secret B phrase ≡ ok secret)
              × (length secret ≡ 32)
              × ((m : bip39.Mnemonic) × (bip39.parse phrase ≡ some m)
                  × (bip39.to_entropy m ≡ secret)))
            ⊎ (phrase_to_secret B phrase ≡ err Error.invalid_phrase)
      by_parse none e = inr (rw (phrase_to_secret, e))
      by_parse (some m) e = elim (Bool-cases (length (bip39.to_entropy m) == 32)) [
        | inl t ↦
            inl (bip39.to_entropy m, rw (phrase_to_secret, e, t), (==_iff _ _).0 t, (m, e, refl))
        | inr f ↦ inr (rw (phrase_to_secret, e, f))
      ]
