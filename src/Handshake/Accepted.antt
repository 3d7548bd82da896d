-- ===== src/Handshake/Accepted.antt =====
-- The server of MessengerApp/server.cpp before any peer: what has to arrive before it serves, and what it
-- shows.
use lib_crypt_safe_messenger.Common.{
  Pairwise, Pairwise-snoc, [], ◌∷◌, ◌++◌, List, ◌≡◌, refl, sym, ap, ◌∙◌, subst, true, false, not,
  Bool-cases, inl, inr, if◌then◌else◌, Option, none, some, Bytes, length, bytes_eq, bytes_eq→eq,
  append_assoc, append-nil, Bool, ◌==◌, eq_of_==,
}
use lib_crypt_safe_messenger.Common.Proc.{
  Proc, Machine, Outcome, returns, throws, faults, and_then, return,
}
use lib_crypt_safe_messenger.OpenSsl.Cipher.{CipherLib}
use lib_crypt_safe_messenger.OpenSsl.Pkey.{PkeyLib}
use lib_crypt_safe_messenger.KeyExchange.Ecdh.{compute_shared_key}
use lib_crypt_safe_messenger.KeyExchange.Fingerprint.{compute_session_confirmation}
use lib_crypt_safe_messenger.Cryptor
use lib_crypt_safe_messenger.Handshake.{
  Server, awaits_client_key, awaits_client_confirm, serves, server_over, server_keyed,
  server_confirmed, server_read, server_derives, server_checks, server_step, server_run,
}

module _ {World : Type 0} where
  -- What a call that returned did before its last step.
  pub and_then-returns :
      {A B : Type 0} (r : Outcome A × Machine World) (f : A → Proc World B) (b : B)
      (n : Machine World)
      → and_then r f ≡ (returns b, n)
      → (a : A) × (m : Machine World) × (r ≡ (returns a, m)) × (f a m ≡ (returns b, n))
  and_then-returns (returns a, m) f b n h = (a, m, refl, h)
  and_then-returns (throws e, m) f b n h = absurd (cc h)
  and_then-returns (faults, m) f b n h = absurd (cc h)

module _ {World : Type 0} (ciphers : CipherLib World) (lib : PkeyLib World) where
  -- The key is the one that the server's own key and the peer's encoding give.
  abbrev pub Derived : lib.Pkey → Bytes → Bytes → Type 0
  Derived kex client_pub aes_key =
      (m : Machine World) × (n : Machine World) × (compute_shared_key lib kex client_pub m
        ≡ (returns aes_key, n))

  -- The frame is the confirmation that the server computes for the client.
  abbrev pub Confirmed : Bytes → Bytes → Type 0
  Confirmed aes_key confirm =
      (m : Machine World) × (n : Machine World) × (compute_session_confirmation lib aes_key
          "client_confirm" m
        ≡ (returns confirm, n))

  abbrev pub Opens : Bytes → Bytes → Bytes → Type 0
  Opens aes_key sealed text =
      (m : Machine World) × (n : Machine World) × (Cryptor.decrypt ciphers aes_key sealed m
        ≡ (returns text, n))

  -- What the frames received so far have to be, for the server to be where it is.
  abbrev pub Accepted : lib.Pkey → List Bytes → Server lib.Pkey → Type 0
  Accepted kex past (awaits_client_key key pub_der) = (past ≡ []) × (key ≡ kex)
  Accepted kex past (awaits_client_confirm aes_key) =
      (client_pub : Bytes) × (past ≡ client_pub ∷ []) × Derived kex client_pub aes_key
  Accepted kex past (serves aes_key shown) =
      (client_pub : Bytes) × (confirm : Bytes) × (sealed : List Bytes) × (past
        ≡ client_pub ∷ confirm ∷ sealed)
      × Derived kex client_pub aes_key
      × Confirmed aes_key confirm
      × (length aes_key ≡ 32)
      × Pairwise (Opens aes_key) sealed shown
  Accepted kex past (server_over o) = Unit {0}

  keyed-Accepted :
      (kex : lib.Pkey) (pub_der frame : Bytes) (m : Machine World)
      (r : Outcome (Bytes × Bytes) × Machine World)
      → server_derives ciphers lib kex frame m ≡ r
      → Accepted kex (frame ∷ []) (server_keyed {Key = lib.Pkey} pub_der r.0).0
  keyed-Accepted kex pub_der frame m (returns (aes_key, confirm), n) e =
      let (key, m1, derived, rest) =
        and_then-returns (compute_shared_key lib kex frame m) _ _ n e in
      let (c, m2, confirms, last) =
        and_then-returns (compute_session_confirmation lib key "server_confirm" m1) _ _ n rest in
      let same : key ≡ aes_key = cc last in
      (frame, refl, (m, m1, derived ∙ ap (λ k. (returns k, m1)) same))
  keyed-Accepted kex pub_der frame m (throws e, n) h = tt
  keyed-Accepted kex pub_der frame m (faults, n) h = tt

  pub new_cryptor-returns :
      (key k : Bytes) (m n : Machine World)
      → Cryptor.new_cryptor key m ≡ (returns k, n)
      → (k ≡ key) × (length key ≡ 32)
  unfolding Cryptor.new_cryptor
  new_cryptor-returns key k m n h = elim (Bool-cases (length key == 32)) [
    | inl good ↦ (cc (good, h), eq_of_== _ _ good)
    | inr bad ↦ absurd (cc (bad, h))
  ]

  pub passed :
      (b : Bool) (q : Proc World (Option Bytes)) (k : Bytes) (m n : Machine World)
      → (if not b then return none else q) m ≡ (returns (some k), n)
      → (b ≡ true) × (q m ≡ (returns (some k), n))
  passed true q k m n h = (refl, h)
  passed false q k m n h = absurd (cc h)

  -- The tail of `server_checks` returns a cryptor only if the two confirmations are the same.
  compared :
      (aes_key frame expected k : Bytes) (m n : Machine World)
      → (if not (bytes_eq frame expected) then return none else (λ m1.
            and_then (Cryptor.new_cryptor aes_key m1) (λ cryptor. return (some cryptor))))
          m
        ≡ (returns (some k), n)
      → (frame ≡ expected) × (k ≡ aes_key) × (length aes_key ≡ 32)
  compared aes_key frame expected k m n h =
      let (same, run) = passed (bytes_eq frame expected) _ k m n h in
      let (c, m1, made, last) = and_then-returns (Cryptor.new_cryptor aes_key m) _ _ n run in
      let (e, size) = new_cryptor-returns aes_key c m m1 made in
      let kept : c ≡ k = cc last in (bytes_eq→eq frame expected same, sym kept ∙ e, size)

  confirmed-Accepted :
      (kex : lib.Pkey) (client_pub aes_key frame : Bytes) (m : Machine World)
      (r : Outcome (Option Bytes) × Machine World)
      → server_checks ciphers lib aes_key frame m ≡ r
      → Derived kex client_pub aes_key
      → Accepted kex (client_pub ∷ frame ∷ []) (server_confirmed {Key = lib.Pkey} r.0).0
  confirmed-Accepted kex client_pub aes_key frame m (returns none, n) e d = tt
  confirmed-Accepted kex client_pub aes_key frame m (returns (some k), n) e d =
      let (expected, m1, confirms, rest) =
        and_then-returns (compute_session_confirmation lib aes_key "client_confirm" m) _ _ n e in
      let (same, kept, size) = compared aes_key frame expected k m1 n rest in
      let result : Accepted kex (client_pub ∷ frame ∷ []) (serves aes_key []) = (
        client_pub,
        frame,
        [],
        refl,
        d,
        (m, m1, confirms ∙ ap (λ x. (returns x, m1)) (sym same)),
        size,
        tt,
      ) in
      subst (λ x. Accepted kex (client_pub ∷ frame ∷ []) (serves x [])) (sym kept) result
  confirmed-Accepted kex client_pub aes_key frame m (throws x, n) e d = tt
  confirmed-Accepted kex client_pub aes_key frame m (faults, n) e d = tt

  read-Accepted :
      (kex : lib.Pkey) (past : List Bytes) (aes_key : Bytes) (shown : List Bytes) (frame : Bytes)
      (m : Machine World) (r : Outcome Bytes × Machine World)
      → Cryptor.decrypt ciphers aes_key frame m ≡ r
      → Accepted kex past (serves aes_key shown)
      → Accepted kex (past ++ (frame ∷ [])) (server_read {Key = lib.Pkey} aes_key shown r.0).0
  read-Accepted kex past aes_key shown frame m (returns plain, n) e
        (client_pub, confirm, sealed, whole, d, c, size, opens) =
      (
        client_pub,
        confirm,
        sealed ++ (frame ∷ []),
        ap (λ p. p ++ (frame ∷ [])) whole,
        d,
        c,
        size,
        Pairwise-snoc (Opens aes_key) sealed shown frame plain opens (m, n, e),
      )
  read-Accepted kex past aes_key shown frame m (throws x, n) e h = tt
  read-Accepted kex past aes_key shown frame m (faults, n) e h = tt

  step-Accepted :
      (kex : lib.Pkey) (past : List Bytes) (s : Server lib.Pkey) (frame : Bytes) (m : Machine World)
      → Accepted kex past s
      → Accepted kex (past ++ (frame ∷ [])) (server_step ciphers lib s frame m).0.0
  unfolding server_step
  step-Accepted kex past (awaits_client_key key pub_der) frame m (none_yet, own) =
      subst
        (λ p.
          Accepted kex (p ++ (frame ∷ []))
            (server_keyed {Key = lib.Pkey} pub_der (server_derives ciphers lib key frame m).0).0)
        (sym none_yet)
        (subst
          (λ k.
            Accepted k (frame ∷ [])
              (server_keyed {Key = lib.Pkey} pub_der (server_derives ciphers lib key frame m).0).0)
          own (keyed-Accepted key pub_der frame m _ refl))
  step-Accepted kex past (awaits_client_confirm aes_key) frame m (client_pub, one, d) =
      subst
        (λ p.
          Accepted kex (p ++ (frame ∷ []))
            (server_confirmed {Key = lib.Pkey} (server_checks ciphers lib aes_key frame m).0).0)
        (sym one) (confirmed-Accepted kex client_pub aes_key frame m _ refl d)
  step-Accepted kex past (serves aes_key shown) frame m h =
      read-Accepted kex past aes_key shown frame m _ refl h
  step-Accepted kex past (server_over o) frame m h = tt

  run-Accepted :
      (kex : lib.Pkey) (past : List Bytes) (s : Server lib.Pkey) (frames : List Bytes)
      (m : Machine World)
      → Accepted kex past s
      → Accepted kex (past ++ frames) (server_run ciphers lib s frames m).0.0
  unfolding server_run
  run-Accepted kex past s [] m h = subst (λ p. Accepted kex p s) (sym (append-nil past)) h
  run-Accepted kex past s (frame ∷ frames) m h =
      let r = server_step ciphers lib s frame m in
      subst (λ p. Accepted kex p (server_run ciphers lib r.0.0 frames r.1).0.0)
        (append_assoc past (frame ∷ []) frames)
        (run-Accepted kex (past ++ (frame ∷ [])) r.0.0 frames r.1
          (step-Accepted kex past s frame m h))

  -- Whoever the peer is, and whatever frames arrive: if a server that has just made its key pair ends up
  -- serving, then the first frame was a public key whose shared secret with the server's key is the
  -- session's key, of 32 bytes; the second frame was the very confirmation that the server computes from
  -- that key and the label "client_confirm"; and there are as many texts shown as later frames, each of
  -- them what `Cryptor::decrypt` made of the frame in its place under that key.
  pub served_lem :
      (kex : lib.Pkey) (server_pub : Bytes) (frames : List Bytes) (m n : Machine World)
      (aes_key : Bytes) (shown sent : List Bytes)
      → server_run ciphers lib (awaits_client_key kex server_pub) frames m
        ≡ ((serves aes_key shown, sent), n)
      → (client_pub : Bytes) × (confirm : Bytes) × (sealed : List Bytes) × (frames
          ≡ client_pub ∷ confirm ∷ sealed)
        × Derived kex client_pub aes_key
        × Confirmed aes_key confirm
        × (length aes_key ≡ 32)
        × Pairwise (Opens aes_key) sealed shown
  served_lem kex server_pub frames m n aes_key shown sent e =
      subst (Accepted kex frames) (ap (λ r. r.0.0) e)
        (run-Accepted kex [] (awaits_client_key kex server_pub) frames m (refl, refl))
