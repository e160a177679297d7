-- ===== src/Creds/Sign/Attach.antt =====
-- internal/creds/creds.go: minting and checking attach credentials.
use lemul.Prelude.{
  ℕ, suc, ◌+◌, ◌*◌, ◌/◌, ltb, ◌^◌, ◌≡◌, ◌≢◌, refl, ap, ◌∙◌, [], ◌∷◌, ◌++◌, some, Bool, true, false,
  All, if◌then◌else◌, arith,
}
use lemul.Prelude.Text.{Bytes, cut-append, equal, equal_iff}
use lemul.Prelude.Int.{ℤ, pos, negsuc}
use lemul.Creds.{ok, err, signature, expired, mac_input, AttachClaims, encode_attach, domain_attach}
use lemul.Creds.Wire.{Fits, IsEncodable, decode_attach-encode_attach}
use lemul.Creds.Mac.{mac_input-injective}
use lemul.Creds.Sign.{
  IsByte, Crypto, after, ttl_or_default, Target, minted, mac, signed, attach_token, expiry_on,
  signed_on, parts_on, verify_attach,
}
use lemul.Creds.Sign.Derived.{Apart}

-- How long a credential lasts, in nanoseconds, by the lifetime that is asked for.
pub data Lasts : ℤ → ℕ → Type 0 where
  asked : (n : ℕ) → Lasts (pos (suc n)) (suc n)
  default_zero : Lasts (pos 0) (60 * 10 ^ 9)
  default_negative : (n : ℕ) → Lasts (negsuc n) (60 * 10 ^ 9)

-- The claims of a credential that is asked for, with the second of its expiry.
abbrev pub asked_claims : Target → ℕ → Bytes → AttachClaims
asked_claims t expiry nonce = record {
  session_id = t.session_id;
  tenant_id = t.tenant_id;
  workspace_name = t.workspace_name;
  org_slug = t.org_slug;
  mode = t.mode;
  expires_at = pos expiry;
  nonce = nonce;
}

minted-asked_claims :
    (t : Target) (ttl : ℤ) (d now : ℕ) (nonce : Bytes)
    → Lasts ttl d
    → minted t ttl now nonce ≡ asked_claims t ((now + d) / 10 ^ 9) nonce
unfolding minted ttl_or_default
minted-asked_claims t _ _ now nonce (asked n) = refl
minted-asked_claims t _ _ now nonce default_zero = refl
minted-asked_claims t _ _ now nonce (default_negative n) = refl

module _ (crypto : Crypto) where
  -- A token of a payload and a signature, both encoded.
  verify_attach-parts :
      (key payload sig : Bytes) (now : ℕ)
      → All IsByte payload
      → All IsByte sig
      → verify_attach crypto key (crypto.encode payload ++ (b'.' ∷ crypto.encode sig)) now
        ≡ signed_on crypto key now (some payload) (some sig)
  unfolding verify_attach parts_on
  verify_attach-parts key payload sig now hp hs =
      rw
        (
          cut-append b'.' (crypto.encode payload) (crypto.encode sig)
              (crypto.encode-no_dot payload),
          crypto.decode-encode payload hp,
          crypto.decode-encode sig hs,
        )
        refl

  -- A credential that AttachToken mints is accepted, with the session, tenant, workspace, slug, mode
  -- and nonce it was minted for, to the end of its lifetime, told in whole seconds, and afterwards it
  -- is refused as expired. The lifetime is the one that is asked for if that is positive, and else a
  -- minute. The texts of the claims are bytes whose lengths, and whose expiry, fit 64 bits.
  pub verify_attach-attach_token :
      (key : Bytes) (t : Target) (ttl : ℤ) (d : ℕ) (n : Bytes) (now later : ℕ)
      → Lasts ttl d
      → IsEncodable (asked_claims t ((now + d) / 10 ^ 9) (crypto.encode n))
      → All IsByte (encode_attach (asked_claims t ((now + d) / 10 ^ 9) (crypto.encode n)))
      → (tok : Bytes) × (attach_token crypto key t ttl (some n) now ≡ some tok)
        × (verify_attach crypto key tok later ≡ (
            if ltb ((now + d) / 10 ^ 9 * 10 ^ 9) later
            then err expired
            else ok (asked_claims t ((now + d) / 10 ^ 9) (crypto.encode n))))
  unfolding attach_token signed signed_on expiry_on mac after
  verify_attach-attach_token key t ttl d n now later lasts encodable bytes =
      let c = asked_claims t ((now + d) / 10 ^ 9) (crypto.encode n) in
      let payload = encode_attach c in
      let code = crypto.hmac key (mac_input domain_attach (payload ∷ [])) in
      (
        crypto.encode payload ++ (b'.' ∷ crypto.encode code),
        ap (λ m. some (signed crypto key (encode_attach m)))
            (minted-asked_claims t ttl d now (crypto.encode n) lasts),
        verify_attach-parts key payload code later bytes (crypto.hmac-bytes key _)
            ∙ rw ((equal_iff code code).1 refl, decode_attach-encode_attach c encodable) refl,
      )

  -- A signature of one payload under another payload is refused as a bad signature, whether or not
  -- the payload it is put under could be parsed or has expired, provided that HMAC does not make one
  -- code of the two.
  verify_attach-tampered :
      (key payload other : Bytes) (now : ℕ)
      → All IsByte other
      → Fits payload
      → Fits other
      → other ≢ payload
      → Apart crypto key
          (mac_input domain_attach (other ∷ []))
          (mac_input domain_attach (payload ∷ []))
      → verify_attach crypto key
          (crypto.encode other
            ++ (b'.' ∷ crypto.encode (mac crypto key domain_attach (payload ∷ []))))
          now
        ≡ err signature
  unfolding signed_on mac
  verify_attach-tampered key payload other now bytes fp fo ne apart =
      let code = crypto.hmac key (mac_input domain_attach (payload ∷ [])) in
      let code' = crypto.hmac key (mac_input domain_attach (other ∷ [])) in
      let differ : equal code' code ≡ false = go (equal code' code) (λ e.
        let same =
          (mac_input-injective domain_attach domain_attach (other ∷ []) (payload ∷ []) (omega arith)
            (omega arith) (fo, tt) (fp, tt) (apart ((equal_iff code' code).0 e))).1 in
        ne (cc same)) in
      verify_attach-parts key other code now bytes (crypto.hmac-bytes key _) ∙ rw differ refl
    where
      go : (b : Bool) → (b ≢ true) → b ≡ false
      go true n = absurd (n refl)
      go false n = refl
