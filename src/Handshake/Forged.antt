-- ===== src/Handshake/Forged.antt =====
-- A bad frame after the handshake of MessengerApp/server.cpp, and a bad confirmation, or an HMAC that
-- fails, during it.
use lib_crypt_safe_messenger.Common.{
  ℕ, ◌^◌, ◌≤◌, ◌<◌, [], ◌∷◌, ◌++◌, List, ◌≡◌, ◌≢◌, refl, ap, ◌∙◌, none, false, Bytes, length,
  bytes_eq, bytes_eq→eq, Bool-cases, inl, inr,
}
use lib_crypt_safe_messenger.Common.Proc.{
  Machine, Outcome, returns, throws, runtime_error, Exception, step,
}
use lib_crypt_safe_messenger.OpenSsl.Cipher.{CipherLib, WritesWithin, IsGcm, IsWorking}
use lib_crypt_safe_messenger.OpenSsl.Pkey.{PkeyLib}
use lib_crypt_safe_messenger.KeyExchange.Fingerprint.{compute_session_confirmation}
use lib_crypt_safe_messenger.Cryptor
use lib_crypt_safe_messenger.Cryptor.Opening.{decrypt_verdict, tag_of, nonce_of, text_of, tampered}
use lib_crypt_safe_messenger.Handshake.{
  Server, awaits_client_confirm, serves, server_over, turn, server_confirmed, server_read,
  server_checks, server_step, server_run,
}

module _ {World : Type 0} (ciphers : CipherLib World) (lib : PkeyLib World) where
  -- Once `main` is over, nothing more is received or sent.
  over_run :
      (o : Outcome ℕ) (frames : List Bytes) (m : Machine World)
      → server_run ciphers lib (server_over o) frames m ≡ ((server_over o, []), m)
  unfolding server_run server_step
  over_run o [] m = refl
  over_run o (frame ∷ frames) m = ap (λ r. ((r.0.0, r.0.1), r.1)) (over_run o frames m)

  ended_run :
      (s : Server lib.Pkey) (frame : Bytes) (later : List Bytes) (m n : Machine World)
      (o : Outcome ℕ)
      → server_step ciphers lib s frame m ≡ ((server_over o, []), n)
      → server_run ciphers lib s (frame ∷ later) m ≡ ((server_over o, []), n)
  unfolding server_run
  ended_run s frame later m n o e =
      ap
        (λ r.
          let rest = server_run ciphers lib r.0.0 later r.1 in
          ((rest.0.0, r.0.1 ++ rest.0.1), rest.1))
        e
      ∙ ap (λ r. ((r.0.0, r.0.1), r.1)) (over_run o later n)

  read_throws :
      (aes_key : Bytes) (shown : List Bytes) (frame : Bytes) (m n : Machine World) (e : Exception)
      → Cryptor.decrypt ciphers aes_key frame m ≡ (throws e, n)
      → server_step ciphers lib (serves aes_key shown) frame m ≡ ((server_over (throws e), []), n)
  unfolding server_step
  read_throws aes_key shown frame m n e h = ap (turn (server_read {Key = lib.Pkey} aes_key shown)) h

  -- A serving server, with a key of 32 bytes and a library that works as documented, ends by an exception
  -- that nothing catches on the first frame that is too short to hold a tag, or whose last 16 bytes are
  -- not the tag of the rest (up to 2 GB); whatever follows that frame is not received, and nothing is
  -- sent.
  pub forged_frame_ends :
      WritesWithin ciphers
      → (g : IsGcm ciphers) → IsWorking ciphers
      → (aes_key : Bytes) (shown : List Bytes) (frame : Bytes) (later : List Bytes)
        (m : Machine World)
      → length aes_key ≡ 32
      → length frame < 2 ^ 31
      → (length frame < 28
          → server_run ciphers lib (serves aes_key shown) (frame ∷ later) m
            ≡ ((server_over (throws (runtime_error "Data too short")), []), m))
        × (28 ≤ length frame
            → tag_of frame ≢ g.mac aes_key (nonce_of frame) (text_of frame)
            → (w : World) × (server_run ciphers lib (serves aes_key shown) (frame ∷ later) m
                ≡ ((server_over (throws (runtime_error tampered)), []), record m { world = w })))
  forged_frame_ends within g works aes_key shown frame later m hk small =
      let (short, _, forged) = decrypt_verdict ciphers within g works aes_key frame hk small m in
      (
        (λ few. ended_run _ frame later m m _ (read_throws aes_key shown frame m m _ (short few))),
        (λ long bad.
            let (w, run) = forged long bad in
            (w, ended_run _ frame later m _ _ (read_throws aes_key shown frame m _ _ run))),
      )

  differs-false : (a b : Bytes) → a ≢ b → bytes_eq a b ≡ false
  differs-false a b h = elim (Bool-cases (bytes_eq a b)) [
    | inl same ↦ absurd (h (bytes_eq→eq a b same))
    | inr other ↦ other
  ]

  -- A confirmation other than the one that the server computes ends the server with exit code 1: it never
  -- serves, and neither receives nor sends anything more.
  pub wrong_confirmation_ends :
      (aes_key frame expected : Bytes) (later : List Bytes) (m n : Machine World)
      → compute_session_confirmation lib aes_key "client_confirm" m ≡ (returns expected, n)
      → frame ≢ expected
      → server_run ciphers lib (awaits_client_confirm aes_key) (frame ∷ later) m
        ≡ ((server_over (returns 1), []), n)
  unfolding server_step
  wrong_confirmation_ends aes_key frame expected later m n run bad =
      let checks : server_checks ciphers lib aes_key frame m ≡ (returns none, n) =
        step (compute_session_confirmation lib aes_key "client_confirm") m _ run
          (rw (differs-false frame expected bad) refl) in
      ended_run (awaits_client_confirm aes_key) frame later m n (returns 1)
        (ap (turn server_confirmed) checks)
