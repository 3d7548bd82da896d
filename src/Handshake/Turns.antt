-- ===== src/Handshake/Turns.antt =====
-- The turns of the two programs of MessengerApp on a network that delivers what is sent.
use lib_crypt_safe_messenger.Common.{
  ◌+◌, ◌≤◌, ◌<◌, [], ◌∷◌, ◌++◌, List, ◌≡◌, ◌≢◌, refl, sym, ap, ◌∙◌, true, some, String, Bytes,
  codes, length, bytes_eq_refl, append_assoc, append-nil, pos, arith, All, take_all, to_int,
}
use lib_crypt_safe_messenger.Common.Proc.{Machine, returns, step}
use lib_crypt_safe_messenger.OpenSsl.Cipher.{CipherLib, WritesWithin, IsGcm, IsWorking}
use lib_crypt_safe_messenger.OpenSsl.Pkey.{PkeyLib}
use lib_crypt_safe_messenger.OpenSsl.Mac.{IsHmac}
use lib_crypt_safe_messenger.KeyExchange.Ecdh.{compute_shared_key}
use lib_crypt_safe_messenger.KeyExchange.Fingerprint.{compute_session_confirmation}
use lib_crypt_safe_messenger.KeyExchange.Confirmation.{confirmation_unchecked}
use lib_crypt_safe_messenger.Cryptor
use lib_crypt_safe_messenger.Cryptor.RoundTrip.{decrypt-encrypt}
use lib_crypt_safe_messenger.Handshake.{
  Server, awaits_client_key, awaits_client_confirm, serves, awaits_server_key,
  awaits_server_confirm, turn, server_keyed, server_confirmed, server_read, client_keyed,
  client_confirmed, client_talks, sent_text, server_checks, client_checks, server_step, server_run,
  client_step, send_texts,
}

-- A text that goes into a frame.
abbrev pub InFrame : Bytes → Type 0
InFrame text = (0 < length text) × (length text ≤ 65536)

module _ {World : Type 0} (lib : PkeyLib World) (h : IsHmac lib) where
  confirmation_run :
      (key : Bytes) (label : String) (m : Machine World)
      → (w : World) × (compute_session_confirmation lib key label m
          ≡ (returns (h.mac key (codes label)), record m { world = w }))
  unfolding compute_session_confirmation
  confirmation_run key label m =
      let w = (lib.hmac key (to_int (length key)) (codes label) m.world).1 in
      let code = h.mac key (codes label) in
      (
        w,
        confirmation_unchecked lib key label m true code 32 w
              (λ i. (h.gives_mac key (codes label) m.world i, w))
              (omega (arith, h.length-mac key (codes label)))
            ∙ ap (λ c. (returns c, record m { world = w }))
                (take_all 32 code (omega (arith, h.length-mac key (codes label)))),
      )

module _ {World : Type 0} (ciphers : CipherLib World) (lib : PkeyLib World) where
  pub server_run_step :
      (s : Server lib.Pkey) (frame : Bytes) (frames : List Bytes) (m : Machine World)
      {s1 s2 : Server lib.Pkey} {out out2 : List Bytes} {m1 m2 : Machine World}
      → server_step ciphers lib s frame m ≡ ((s1, out), m1)
      → server_run ciphers lib s1 frames m1 ≡ ((s2, out2), m2)
      → server_run ciphers lib s (frame ∷ frames) m ≡ ((s2, out ++ out2), m2)
  unfolding server_run
  server_run_step s frame frames m {out = out} e e2 =
      ap
        (λ r.
          let rest = server_run ciphers lib r.0.0 frames r.1 in
          ((rest.0.0, r.0.1 ++ rest.0.1), rest.1))
        e
      ∙ ap (λ rest. ((rest.0.0, out ++ rest.0.1), rest.1)) e2

  serve_step :
      (key : Bytes) (shown : List Bytes) (frame text : Bytes) (m m1 : Machine World)
      → Cryptor.decrypt ciphers key frame m ≡ (returns text, m1)
      → server_step ciphers lib (serves key shown) frame m
        ≡ ((serves key (shown ++ (text ∷ [])), []), m1)
  unfolding server_step
  serve_step key shown frame text m m1 e = ap (turn (server_read {Key = lib.Pkey} key shown)) e

  -- What the client's loop sends is what the server's loop shows.
  pub talk :
      WritesWithin ciphers
      → IsGcm ciphers
      → IsWorking ciphers
      → ((w : World) → (ciphers.rand_bytes 12 w).0.0 ≢ pos 0)
      → (key : Bytes) → length key ≡ 32
      → (texts : List Bytes) → All (λ t. length t + 28 ≤ 65536) texts
      → (n : Machine World)
      → (sealed : List Bytes) × (n1 : Machine World) × (send_texts ciphers lib key texts n
          ≡ ((returns 0, sealed), n1))
        × All InFrame sealed
        × ((shown : List Bytes) (m : Machine World)
            → (m1 : Machine World) × (server_run ciphers lib (serves key shown) sealed m
                ≡ ((serves key (shown ++ texts), []), m1)))
  unfolding send_texts server_run
  talk within g works draws key hk [] small n =
      ([], n, refl, tt, λ shown m. (m, ap (λ t. ((serves key t, []), m)) (sym (append-nil shown))))
  talk within g works draws key hk (t ∷ ts) small n =
      let (c, w, run, size, opens) =
        decrypt-encrypt ciphers within g works key t hk (omega (arith, small.0)) n
          (draws n.world) in
      let (cs, n1, sends, sizes, shows) =
        talk within g works draws key hk ts small.1 (record n { world = w }) in
      (
        c ∷ cs,
        n1,
        ap (λ r. sent_text ciphers lib r (send_texts ciphers lib key ts)) run
            ∙ ap (λ r. ((r.0.0, c ∷ r.0.1), r.1)) sends,
        ((omega (arith, size), omega (arith, size, small.0)), sizes),
        λ shown m.
            let (v, opened) = opens m in
            let (m1, served) = shows (shown ++ (t ∷ [])) (record m { world = v }) in
            (
              m1,
              server_run_step (serves key shown) c cs m
                    (serve_step key shown c t m (record m { world = v }) opened) served
                  ∙ ap (λ p. ((serves key p, []), m1)) (append_assoc shown (t ∷ []) ts),
            ),
      )

  -- The server's turn on the client's key.
  pub server_keyed_run :
      (h : IsHmac lib) (b : lib.Pkey) (server_pub der key : Bytes) (m n : Machine World)
      → compute_shared_key lib b der m ≡ (returns key, n)
      → (w : World) × (server_step ciphers lib (awaits_client_key b server_pub) der m ≡ (
        (awaits_client_confirm key, server_pub ∷ h.mac key (codes "server_confirm") ∷ []),
        record n { world = w },
      ))
  unfolding server_step
  server_keyed_run h b server_pub der key m n e =
      let (w, run) = confirmation_run lib h key "server_confirm" n in
      (
        w,
        ap (turn (server_keyed server_pub)) (
            step (compute_shared_key lib b der) m _ e
              (step (compute_session_confirmation lib key "server_confirm") n _ run refl)),
      )

  pub new_cryptor_runs :
      (key : Bytes) (m : Machine World)
      → length key ≡ 32
      → Cryptor.new_cryptor key m ≡ (returns key, m)
  unfolding Cryptor.new_cryptor
  new_cryptor_runs key m h = ground arith

  pub server_confirmed_run :
      (h : IsHmac lib) (key : Bytes) (m : Machine World)
      → length key ≡ 32
      → (w : World) × (server_step ciphers lib
            (awaits_client_confirm key)
            (h.mac key (codes "client_confirm"))
            m
          ≡ ((serves key [], []), record m { world = w }))
  unfolding server_step
  server_confirmed_run h key m hk =
      let (w, run) = confirmation_run lib h key "client_confirm" m in
      let code = h.mac key (codes "client_confirm") in
      let checks : server_checks ciphers lib key code m
          ≡ (returns (some key), record m { world = w }) =
        step (compute_session_confirmation lib key "client_confirm") m _ run (
          rw (bytes_eq_refl code) (
            step (Cryptor.new_cryptor key) (record m { world = w }) _
              (new_cryptor_runs key (record m { world = w }) hk) refl)) in
      (w, ap (turn server_confirmed) checks)

  pub client_confirmed_run :
      (h : IsHmac lib) (key : Bytes) (m : Machine World)
      → length key ≡ 32
      → (w : World) × (client_step ciphers lib
            (awaits_server_confirm key)
            (h.mac key (codes "server_confirm"))
            m
          ≡ client_talks ciphers lib
              (h.mac key (codes "client_confirm"))
              (returns key, record m { world = w }))
  unfolding client_step
  client_confirmed_run h key m hk =
      let (w, run) = confirmation_run lib h key "server_confirm" m in
      let (v, own) = confirmation_run lib h key "client_confirm" (record m { world = w }) in
      let code = h.mac key (codes "server_confirm") in
      let mine = h.mac key (codes "client_confirm") in
      let checks : client_checks ciphers lib key code m
          ≡ (returns (some mine), record m { world = v }) =
        step (compute_session_confirmation lib key "server_confirm") m _ run (
          rw (bytes_eq_refl code) (
            step (compute_session_confirmation lib key "client_confirm") (record m { world = w }) _
              own refl)) in
      (
        v,
        ap (client_confirmed ciphers lib key) checks
            ∙ ap (client_talks ciphers lib (h.mac key (codes "client_confirm")))
                (new_cryptor_runs key (record m { world = v }) hk),
      )

  pub client_keyed_run :
      (a : lib.Pkey) (der key : Bytes) (m n : Machine World)
      → compute_shared_key lib a der m ≡ (returns key, n)
      → client_step ciphers lib (awaits_server_key a) der m ≡ ((awaits_server_confirm key, []), n)
  unfolding client_step
  client_keyed_run a der key m n e = ap (turn client_keyed) e
